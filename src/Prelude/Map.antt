-- ===== src/Prelude/Map.antt =====
-- Maps with text keys: the `BTreeMap<String, V>` and `HashMap<Did, V>` of the source, as a list of
-- entries in key order.
use mathlib.Core.Path.{◌≡◌, refl}
use mathlib.Core.Bool.{Bool, true, false, ◌||◌, ◌&&◌}
use mathlib.Core.List.{List, [], ◌∷◌, map}
use mathlib.Core.Option.{Option, none, some}
use native.Mathlib.Omega.{arith}
use aion_trust.Prelude.Tests.{ltb, ◌==◌, if◌then◌else◌}
use aion_trust.Prelude.ByteStrings.{Bytes, Text, bytes_eq, bytes_eq_refl, bytes_eq_iff}

-- The lexical order of byte strings.
unfoldable pub less : Bytes → Bytes → Bool
less xs [] = false
less [] (y ∷ ys) = true
less (x ∷ xs) (y ∷ ys) = ltb x y || ((x == y) && less xs ys)

abbrev pub Map {ℓ} : Type ℓ → Type ℓ
Map V = List (Text × V)

module _ {ℓ} {V : Type ℓ} where
  unfoldable pub get : Text → Map V → Option V
  get k [] = none
  get k ((j, v) ∷ m) = if bytes_eq j k then some v else get k m

  unfoldable pub insert : Text → V → Map V → Map V
  insert k v [] = (k, v) ∷ []
  insert k v ((j, w) ∷ m) =
      if bytes_eq j k
      then (k, v) ∷ m
      else if less k j
      then (k, v) ∷ (j, w) ∷ m
      else (j, w) ∷ insert k v m

  abbrev pub contains_key : Text → Map V → Bool
  contains_key k m = elim (get k m) [ none ↦ false | some v ↦ true ]

  abbrev pub keys : Map V → List Text
  keys m = map (λ e. e.0) m

  -- One entry after the other goes into the map, over an entry of the same key.
  unfoldable pub extend : Map V → Map V → Map V
  unfolding insert
  extend acc [] = acc
  extend acc ((k, v) ∷ m) = extend (insert k v acc) m

  -- `into_iter().collect::<BTreeMap<_, _>>()`: of two entries with one key, the last stays.
  unfoldable pub collect : Map V → Map V
  unfolding extend
  collect m = extend [] m

  pub get-insert :
      (k j : Text) (v : V) (m : Map V)
      → get j (insert k v m) ≡ (if bytes_eq k j then some v else get j m)
  unfolding get insert
  get-insert k j v [] = refl
  get-insert k j v ((i, w) ∷ m) =
      ground (arith, get-insert k j v m, bytes_eq_iff i k, bytes_eq_iff i j, bytes_eq_iff k j)

  pub get-insert_self : (k : Text) (v : V) (m : Map V) → get k (insert k v m) ≡ some v
  get-insert_self k v m = simp (get-insert, bytes_eq_refl)
