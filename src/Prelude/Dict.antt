-- ===== src/Prelude/Dict.antt =====
-- An object that the program uses as a map, as its list of entries.
use Prim.Native.String.{String}
use mathlib.Core.Path.{◌≡◌, refl}
use mathlib.Core.List.{List, [], ◌∷◌}
use mathlib.Core.Option.{Option, none, some}
use native.Mathlib.Omega.{arith}
use text.Mathlib.Text.{◌==◌ as str_eq}
use text.Mathlib.TextEquality.{eq_iff}
use security_scan.Prelude.Tests.{if◌then◌else◌}

-- `map[k] = v`
unfoldable pub put_key {ℓ} : {V : Type ℓ} → String → V → List (String × V) → List (String × V)
put_key k v [] = (k, v) ∷ []
put_key k v ((j, w) ∷ m) = if str_eq j k then (j, v) ∷ m else (j, w) ∷ put_key k v m

-- `map[k]`
unfoldable pub get_key {ℓ} : {V : Type ℓ} → String → List (String × V) → Option V
get_key k [] = none
get_key k ((j, w) ∷ m) = let rest = get_key k m in if str_eq j k then some w else rest

pub get_key-put_key {ℓ} :
    {V : Type ℓ} (j k : String) (v : V) (m : List (String × V))
    → get_key j (put_key k v m) ≡ (if str_eq k j then some v else get_key j m)
unfolding get_key put_key
get_key-put_key j k v [] = refl
get_key-put_key j k v ((i, w) ∷ m) =
    ground (arith, get_key-put_key j k v m, eq_iff i k, eq_iff i j, eq_iff k j)
