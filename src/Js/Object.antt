-- ===== src/Js/Object.antt =====
-- Plain objects (`{}`) as dictionaries: own properties, the names inherited from
-- `Object.prototype`, and the order in which the keys are listed.
mod Keys
unfoldable pub use Keys.{array_index, own_keys}
use ttlive_cpp.Prelude.{
  ◌≡◌, refl, Bool, true, false, ◌||◌, ◌&&◌, not, List, [], ◌∷◌, Option, none, some, arith,
  if◌then◌else◌, any, codes,
}
use ttlive_cpp.Js.Text.{Text, same, same_iff, same_refl}

-- The own properties, in the order of their creation.
abbrev pub Dict {ℓ} : Type ℓ → Type ℓ
Dict V = List (Text × V)

abbrev pub proto_key : Text
proto_key = codes "__proto__"

-- The names that every plain object finds on its prototype.
abbrev pub prototype_names : List Text
prototype_names =
    proto_key
    ∷ codes "constructor"
    ∷ codes "hasOwnProperty"
    ∷ codes "isPrototypeOf"
    ∷ codes "propertyIsEnumerable"
    ∷ codes "toLocaleString"
    ∷ codes "toString"
    ∷ codes "valueOf"
    ∷ codes "__defineGetter__"
    ∷ codes "__defineSetter__"
    ∷ codes "__lookupGetter__"
    ∷ codes "__lookupSetter__"
    ∷ []

unfoldable pub is_inherited : Text → Bool
unfolding same
is_inherited k = any (same k) prototype_names

module _ {ℓ} {V : Type ℓ} where
  unfoldable pub own : Text → Dict V → Option V
  own k [] = none
  own k ((j, v) ∷ o) = if same j k then some v else own k o

  unfoldable pub has_own : Text → Dict V → Bool
  has_own k [] = false
  has_own k ((j, v) ∷ o) = if same j k then true else has_own k o

  -- `k in o`
  unfoldable pub has : Text → Dict V → Bool
  has k o = has_own k o || is_inherited k

  -- Creates the property, or changes it in its place.
  unfoldable pub put : Text → V → Dict V → Dict V
  put k v [] = (k, v) ∷ []
  put k v ((j, w) ∷ o) = if same j k then (j, v) ∷ o else (j, w) ∷ put k v o

  -- `o[k] = v` for a primitive `v`: the setter behind `__proto__` ignores it.
  unfoldable pub assign : Text → V → Dict V → Dict V
  assign k v o = if same k proto_key then o else put k v o

  -- `delete o[k]`
  unfoldable pub remove : Text → Dict V → Dict V
  remove k [] = []
  remove k ((j, v) ∷ o) = if same j k then remove k o else (j, v) ∷ remove k o

  pub own-put :
      (k j : Text) (v : V) (o : Dict V) → own j (put k v o) ≡ (if same k j then some v else own j o)
  unfolding own put
  own-put k j v [] = refl
  own-put k j v ((i, w) ∷ o) =
      ground (arith, same_iff k j, same_iff i k, same_iff i j, own-put k j v o)

  pub own-remove :
      (k j : Text) (o : Dict V) → own j (remove k o) ≡ (if same k j then none else own j o)
  unfolding own remove
  own-remove k j [] = ground arith
  own-remove k j ((i, w) ∷ o) =
      ground (arith, same_iff k j, same_iff i k, same_iff i j, own-remove k j o)

  pub own-assign :
      (k j : Text) (v : V) (o : Dict V)
      → own j (assign k v o) ≡ (if same k j && not (same k proto_key) then some v else own j o)
  unfolding assign
  own-assign k j v o = ground (arith, own-put k j v o)

  pub has_own-put :
      (k j : Text) (v : V) (o : Dict V)
      → has_own j (put k v o) ≡ (if same k j then true else has_own j o)
  unfolding has_own put
  has_own-put k j v [] = refl
  has_own-put k j v ((i, w) ∷ o) =
      ground (arith, same_iff k j, same_iff i k, same_iff i j, has_own-put k j v o)

  pub has_own-remove :
      (k j : Text) (o : Dict V) → has_own j (remove k o) ≡ (if same k j then false else has_own j o)
  unfolding has_own remove
  has_own-remove k j [] = ground arith
  has_own-remove k j ((i, w) ∷ o) =
      ground (arith, same_iff k j, same_iff i k, same_iff i j, has_own-remove k j o)

  pub has_own-assign :
      (k j : Text) (v : V) (o : Dict V)
      → has_own j (assign k v o)
        ≡ (if same k j && not (same k proto_key) then true else has_own j o)
  unfolding assign
  has_own-assign k j v o = ground (arith, has_own-put k j v o)

  -- A property is there exactly when it has a value.
  pub own-has_own : (k : Text) (o : Dict V) → has_own k o ≡ false → own k o ≡ none
  unfolding own has_own
  own-has_own k [] h = refl
  own-has_own k ((j, v) ∷ o) h = ground (arith, own-has_own k o)

  pub has_own-own : (k : Text) (v : V) (o : Dict V) → own k o ≡ some v → has_own k o ≡ true
  unfolding own has_own
  has_own-own k v [] h = cc
  has_own-own k v ((j, w) ∷ o) h = ground (arith, has_own-own k v o)
