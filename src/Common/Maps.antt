-- ===== src/Common/Maps.antt =====
-- A JavaScript `Map` as a function: the services never depend on its order.
use Prim.Native.Nat.{ℕ}
use mathlib.Core.Bool.{Bool}
use mathlib.Core.Option.{Option, none, some}
use qs_farm_be.Common.Tests.{◌==◌, if◌then◌else◌}

abbrev pub Dict : Type 0 → Type 0 → Type 0
Dict K V = K → Option V

abbrev pub empty : {K V : Type 0} → Dict K V
empty k = none

-- `Map.set` and `Map.delete`, for the keys that the test `same` tells apart.
abbrev pub insert_by : {K V : Type 0} → (K → K → Bool) → K → V → Dict K V → Dict K V
insert_by same k v m j = if same j k then some v else m j

abbrev pub erase_by : {K V : Type 0} → (K → K → Bool) → K → Dict K V → Dict K V
erase_by same k m j = if same j k then none else m j

abbrev pub insert : {V : Type 0} → ℕ → V → Dict ℕ V → Dict ℕ V
insert = insert_by ◌==◌

abbrev pub erase : {V : Type 0} → ℕ → Dict ℕ V → Dict ℕ V
erase = erase_by ◌==◌
