-- ===== src/Slardar/Commands/Stuck.antt =====
-- Commands that wait behind one with a dot in its path.
use ttlive_cpp.Prelude.{ℕ, ◌≡◌, ◌≢◌, Bool, List, [], ◌∷◌, ◌++◌}
use ttlive_cpp.Js.Text.{Text, before}
use ttlive_cpp.Slardar.Commands.{Member, Command, Front, command, provide}

-- What comes afterwards: commands and provisions.
pub data Later {ℓ} (A : Type ℓ) (C : Type ℓ) : Type ℓ where
  commanded : Command A C → Later A C
  provided : Text → Member → Later A C

module _ {ℓ} {A C : Type ℓ} where
  -- The hooks on reports stay, and others may come behind them.
  record Grows (s t : Front A C) : Type ℓ where
    more : List C
    grown : t.contexts ≡ s.contexts ++ more

  abbrev pub issue : Command A C → Front A C → Front A C
  issue c s = command c.path c.context c.args s

  module _ (throws : ℕ → List A → Bool) where
    unfoldable pub after : List (Later A C) → Front A C → Front A C
    after [] s = s
    after (commanded c ∷ ls) s = after ls (issue c s)
    after (provided n m ∷ ls) s = after ls (provide throws n m s)

  -- Commands for one first part of their paths.
  abbrev pub IsFor : Text → Command A C → Type 0
  IsFor r c = (c.path ≢ []) × (before b'.' c.path ≡ r)

  unfoldable pub issue_all : List (Command A C) → Front A C → Front A C
  issue_all [] s = s
  issue_all (c ∷ cs) s = issue_all cs (issue c s)

  module _ (throws : ℕ → List A → Bool) (r : Text) (first : Command A C)
      (cs : List (Command A C)) where
    IsStuck : Front A C → Front A C → Type ℓ
    IsStuck s t =
        (t.calls ≡ s.calls)
        × (t.queue ≡ s.queue)
        × (t.contexts ≡ s.contexts ++ (first.context ∷ []))
