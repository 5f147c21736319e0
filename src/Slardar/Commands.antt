-- ===== src/Slardar/Commands.antt =====
-- The front of the monitor in js/browser.sg.js (`W`): a function that calls a method by its path, and
-- keeps the commands for what is not provided yet until it is (with `p`, `hn` and the call-back of
-- `Re`). What is provided is a function or an object of such; what functions have by themselves, as
-- `call`, is not called.
pub mod Replay
pub mod Stuck
mod Tests
use ttlive_cpp.Prelude.{
  ℕ, Bool, true, false, ◌||◌, List, [], ◌∷◌, ◌++◌, Option, none, some, if◌then◌else◌, codes, ◌==◌,
}
use ttlive_cpp.Js.Text.{Text, same, before, behind}
use ttlive_cpp.Js.Object.{Dict, own, has_own, put, is_inherited}
use ttlive_cpp.Slardar.Util.{includes}
use ttlive_cpp.Slardar.Client.{reserved}

-- Functions are known by numbers.
mutual
  pub data Member : Type 0 where
    method : ℕ → Member
    object : Members → Member

  pub data Members : Type 0 where
    no_members : Members
    member : Text → Member → Members → Members

-- A call, with what its reports are given in addition: the contexts of the hooks that stand then.
pub record Call {ℓ} (A : Type ℓ) (C : Type ℓ) : Type ℓ where
  pub callee : ℕ
  pub args : List A
  pub contexts : List C

pub record Command {ℓ} (A : Type ℓ) (C : Type ℓ) : Type ℓ where
  pub context : C
  pub path : Text
  pub args : List A

pub record Front {ℓ} (A : Type ℓ) (C : Type ℓ) : Type ℓ where
  -- The own members of `f` and of the client.
  pub front : Dict Member
  pub client : Dict Member
  -- `s`, where an entry that is `null` is an empty list.
  pub queue : Dict (List (Command A C))
  -- The hooks on reports that `hn` has set, and the calls so far.
  pub contexts : List C
  pub calls : List (Call A C)

-- What every function has.
abbrev pub function_names : List Text
function_names =
    codes "length"
    ∷ codes "name"
    ∷ codes "prototype"
    ∷ codes "arguments"
    ∷ codes "caller"
    ∷ codes "apply"
    ∷ codes "bind"
    ∷ codes "call"
    ∷ []

-- `path.split(".")`
abbrev cons_to : ℕ → List Text → List Text
cons_to c [] = (c ∷ []) ∷ []
cons_to c (s ∷ ss) = (c ∷ s) ∷ ss

unfoldable pub split : Text → List Text
split [] = [] ∷ []
split (c ∷ s) = let rest = split s in if c == b'.' then [] ∷ rest else cons_to c rest

abbrev pub member_of : Text → Members → Option Member
member_of k no_members = none
member_of k (member j m ms) = if same j k then some m else member_of k ms

abbrev pub as_method : Option Member → Option ℕ
as_method none = none
as_method (some (method f)) = some f
as_method (some (object ms)) = none

-- `p`, from the second segment on.
abbrev pub walk : Option Member → List Text → Option ℕ
walk m [] = as_method m
walk none (k ∷ ks) = none
walk (some (method f)) (k ∷ ks) = none
walk (some (object ms)) (k ∷ ks) = walk (member_of k ms) ks

abbrev pub find : Dict Member → List Text → Option ℕ
find d [] = none
find d (k ∷ ks) = walk (own k d) ks

-- `r in f`
unfoldable pub is_there : Text → Dict Member → Bool
is_there r d = has_own r d || (is_inherited r || includes same function_names r)

module _ {ℓ} {A C : Type ℓ} where
  unfoldable pub note : ℕ → List A → Front A C → Front A C
  note f args s = record s {
    calls = s.calls ++ (record { callee = f; args = args; contexts = s.contexts } ∷ []);
  }

  -- A call that throws is caught.
  abbrev pub call_directly : Option ℕ → List A → Front A C → Front A C
  call_directly none args s = s
  call_directly (some f) args s = note f args s

  abbrev pub waiting : Option (List (Command A C)) → List (Command A C)
  waiting none = []
  waiting (some cs) = cs

  unfoldable pub keep_command : Text → Command A C → Front A C → Front A C
  keep_command r c s = record s { queue = put r (waiting (own r s.queue) ++ (c ∷ [])) s.queue }

  abbrev pub command_at : Text → Text → C → List A → Front A C → Front A C
  command_at r path context args s =
      if is_there r s.front
      then call_directly (find s.front (split path)) args s
      else keep_command r (record { context = context; path = path; args = args }) s

  -- `f`, with the context of the moment; without a path it does nothing.
  unfoldable pub command : Text → C → List A → Front A C → Front A C
  command [] context args s = s
  command (c ∷ path) context args s = command_at (before b'.' (c ∷ path)) (c ∷ path) context args s

  module _ (throws : ℕ → List A → Bool) where
    -- One command that waited, and whether it threw. The hook stands until the command is done.
    abbrev pub replay_by : Option ℕ → Command A C → Front A C → Front A C × Bool
    replay_by none c s = (record s { contexts = s.contexts ++ (c.context ∷ []) }, true)
    replay_by (some f) c s =
        let called = note f c.args (record s { contexts = s.contexts ++ (c.context ∷ []) }) in
        if throws f c.args then (called, true) else (record called { contexts = s.contexts }, false)

    unfoldable pub replay_one : Command A C → Front A C → Front A C × Bool
    replay_one c s = replay_by (as_method (own c.path s.client)) c s

    abbrev pub unless_thrown : Front A C × Bool → (Front A C → Front A C × Bool) → Front A C × Bool
    unless_thrown (s, true) next = (s, true)
    unless_thrown (s, false) next = next s

    -- `s[n].forEach`
    unfoldable pub replay : List (Command A C) → Front A C → Front A C × Bool
    replay [] s = (s, false)
    replay (c ∷ cs) s = unless_thrown (replay_one c s) (replay cs)

    abbrev pub emptied : Text → Front A C × Bool → Front A C
    emptied n (s, true) = s
    emptied n (s, false) = record s { queue = put n [] s.queue }

    abbrev pub replay_waiting : Text → Option (List (Command A C)) → Front A C → Front A C
    replay_waiting n none s = s
    replay_waiting n (some cs) s = emptied n (replay cs s)

    -- `provide`, with the hook on it; an exception in the hook is caught.
    unfoldable pub provide : Text → Member → Front A C → Front A C
    provide n m s =
        let s = record s { front = put n m s.front } in
        if includes same reserved n
        then s
        else replay_waiting n (own n s.queue) (record s { client = put n m s.client })
