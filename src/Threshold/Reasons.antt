-- ===== src/Threshold/Reasons.antt =====
-- sensor/constants/threshold-rules.ts: the text that goes with a violation of each sensor's bounds.
use Prim.Native.String.{String}
use qs_farm_be.Domain.{
  SensorType, water_pressure, water_flow, pump_temperature, soil_moisture, electrical_current,
  electrical_phase, pump_status, fert_temperature, fert_current, fert_phase, fert_status,
}

pub data AlertDirection : Type 0 where
  above below : AlertDirection

-- `direction === BELOW ? reasonMap.belowMin : reasonMap.aboveMax`
unfoldable pub sensor_reason : SensorType → AlertDirection → String
sensor_reason soil_moisture below = "Độ ẩm đất thấp"
sensor_reason soil_moisture above = "Độ ẩm đất cao"
sensor_reason pump_temperature below = "Nhiệt độ máy bơm thấp"
sensor_reason pump_temperature above = "Nhiệt độ máy bơm quá cao"
sensor_reason water_pressure below = "Áp suất nước thấp"
sensor_reason water_pressure above = "Áp suất nước cao"
sensor_reason water_flow below = "Lưu lượng nước thấp"
sensor_reason water_flow above = "Lưu lượng nước cao"
sensor_reason electrical_current below = "Dòng điện thấp"
sensor_reason electrical_current above = "Quá dòng điện"
sensor_reason electrical_phase below = "Lỗi pha điện"
sensor_reason electrical_phase above = "Quá điện áp pha"
sensor_reason pump_status below = "Trạng thái bơm thấp"
sensor_reason pump_status above = "Trạng thái bơm cao"
sensor_reason fert_temperature below = "Nhiệt độ máy phân thấp"
sensor_reason fert_temperature above = "Nhiệt độ máy phân quá cao"
sensor_reason fert_current below = "Dòng điện máy phân thấp"
sensor_reason fert_current above = "Quá dòng điện máy phân"
sensor_reason fert_phase below = "Lỗi pha điện máy phân"
sensor_reason fert_phase above = "Quá điện áp pha máy phân"
sensor_reason fert_status below = "Trạng thái máy phân thấp"
sensor_reason fert_status above = "Trạng thái máy phân cao"
