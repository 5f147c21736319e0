-- ===== src/Shim/Elements/Attributes.antt =====
-- Reading an attribute after a change of one.
use ttlive_cpp.Prelude.{◌≡◌, false, not, ◌&&◌, if◌then◌else◌, arith, List, [], ◌∷◌, keep, All}
use ttlive_cpp.Js.Text.{Text, same, same_iff}
use ttlive_cpp.Js.Object.{own-assign, own-remove, has, has_own-remove, proto_key, is_inherited}
use ttlive_cpp.Shim.Storage.{text, member, null}
use ttlive_cpp.Shim.Elements.{
  Element, set_attribute, get_attribute, remove_attribute, has_attribute,
}

-- `setAttribute` is seen by `getAttribute` under its name only; a write to `__proto__` is lost.
pub get_attribute-set_attribute :
    (k j v : Text) (e : Element)
    → get_attribute j (set_attribute k v e)
      ≡ (if same k j && not (same k proto_key) then text v else get_attribute j e)
unfolding get_attribute set_attribute
get_attribute-set_attribute k j v e = ground (arith, own-assign k j v e.attributes)

-- After `removeAttribute` the name is gone from both records of the attributes, unless the lookup
-- finds a member of `Object.prototype` of that name.
pub remove_attribute-gone :
    (k : Text) (e : Element)
    → (get_attribute k (remove_attribute k e) ≡ (if is_inherited k then member k else null))
      × (has_attribute k (remove_attribute k e) ≡ is_inherited k)
      × All (λ a. same a.0 k ≡ false) (remove_attribute k e).attrs
unfolding get_attribute has_attribute remove_attribute has
remove_attribute-gone k e = (
  ground (arith, own-remove k k e.attributes, same_iff k k),
  ground (arith, has_own-remove k k e.attributes, same_iff k k),
  All-keep e.attrs,
)
  where
    All-keep :
        (l : List (Text × Text)) → All (λ a. same a.0 k ≡ false) (keep (λ a. not (same a.0 k)) l)
    All-keep [] = tt
    All-keep (a ∷ l) = ground (arith, All-keep l)
