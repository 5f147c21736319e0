-- ===== src/Shim/Window/Laws.antt =====
-- Reading the window after a write, and what `in` says of it.
use ttlive_cpp.Prelude.{
  ◌≡◌, ◌↔◌, Bool, true, false, ◌&&◌, not, Option, none, some, if◌then◌else◌, arith,
}
use ttlive_cpp.Js.Text.{Text, same, same_iff}
use ttlive_cpp.Js.Object.{own-put, proto_key}
use ttlive_cpp.Shim.Window.{
  Engine, Member, holds, fixed, poisoned, Side, Window, Got, plain, proxy, is_self, is_some, look,
  api_got, put_own, write, get, set, contains,
}

module _ {ℓ} {V : Type ℓ} where
  abbrev pub refuses : Option (Member V) → Bool
  refuses none = false
  refuses (some (holds v)) = false
  refuses (some (fixed v)) = true
  refuses (some poisoned) = true

  -- A write to another name than `__proto__` creates or changes that property, or throws.
  write-put :
      (f : Option (Text → Option (Member V))) (k : Text) (v : V) (s : Side V)
      → same k proto_key ≡ false
      → write f k v s ≡ (if refuses (look k s) then none else some (put_own k v s))
  unfolding write look
  write-put f k v s h = ground (arith)

  look-put_own :
      (k j : Text) (v : V) (s : Side V)
      → look j (put_own k v s) ≡ (if same k j then some (holds v) else look j s)
  unfolding look
  look-put_own k j v s = ground (arith, own-put k j v s.own_dict)

module _ {ℓ} {V : Type ℓ} (engine : Engine V) where
  -- What a write to the name meets: the table's member, or else the target's.
  abbrev pub met : Text → Window V → Option (Member V)
  met k w = if is_some (look k w.apis) then look k w.apis else look k w.target

  -- A write is seen by a later read unless it throws, or the name is one of the window's own, an engine
  -- global, or found both in `browserAPIs` and on the target function.
  abbrev pub is_kept : Text → Window V → Bool
  is_kept k w =
      not (is_self k)
      && not (is_some (engine.builtin k))
      && not (is_some (look k w.apis) && is_some (look k w.target))
      && not (refuses (met k w))

  -- What a kept write reads as.
  abbrev pub written : Text → V → Window V → Got V
  written k v w = if is_some (look k w.apis) then api_got k (holds v) else plain v

  -- The window after a write, which an exception leaves as it was.
  abbrev pub after : Option (Window V) → Window V → Window V
  after none w = w
  after (some x) w = x

  -- `in` is false exactly for the names that read as a fallback proxy.
  pub contains-get :
      (k : Text) (w : Window V) → (contains engine k w ≡ false) ↔ (get engine k w ≡ proxy k)
  unfolding contains get
  contains-get k w = ground (arith)

  set-put :
      (k : Text) (v : V) (w : Window V)
      → same k proto_key ≡ false
      → set engine k v w ≡ (
          if refuses (met k w)
          then none
          else if is_some (look k w.apis)
          then some (record w { apis = put_own k v w.apis })
          else some (record w { target = put_own k v w.target }))
  unfolding set
  set-put k v w h = ground (
    arith,
    write-put (engine.members v) k v w.apis h,
    write-put (engine.members v) k v w.target h,
  )

  -- For a name other than `__proto__`: a write throws exactly when what it meets, in `browserAPIs`
  -- or else on the target function, cannot be written. A write is kept if it does not throw and
  -- the name is not one of the window's own, not an engine global, and not found both in
  -- `browserAPIs` and on the target function. A kept write is read back, under one of the wrapped
  -- names of `browserAPIs` as a proxy over the value; every other read, of another name or after a
  -- write that is not kept, is as before the write.
  pub get-set :
      (k j : Text) (v : V) (w : Window V)
      → same k proto_key ≡ false
      → (is_some (set engine k v w) ≡ not (refuses (met k w)))
        × (get engine j (after (set engine k v w) w)
            ≡ (if same k j && is_kept k w then written k v w else get engine j w))
  unfolding get
  get-set k j v w h = (
    ground (arith, set-put k v w h),
    ground (
      arith,
      set-put k v w h,
      same_iff k j,
      look-put_own k j v w.apis,
      look-put_own k j v w.target,
    ),
  )
