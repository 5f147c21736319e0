-- ===== src/Slardar/Settings/Answer.antt =====
-- The settings come once, and the wait for them never gets stuck.
use ttlive_cpp.Prelude.{
  ℕ, zero, suc, ◌+◌, ◌<◌, ◌≡◌, refl, Bool, true, false, ◌&&◌, List, [], ◌∷◌, Option, none, some,
  if_has, ltb, length, length-append, arith,
}
use ttlive_cpp.Slardar.Settings.{
  Fetch, Local, Failure, max_tries, request, fetch, deliver, recover, Event, succeeded, failed,
  timer, online, answered, timed_out, handle, handle_all,
}

abbrev pub one_if : Bool → ℕ
one_if true = 1
one_if false = 0

module _ {ℓ} {S : Type ℓ} where
  -- What may still bring an answer.
  abbrev pub hopes : Fetch S → ℕ
  hopes f = f.requests + f.timers + one_if f.listening

  pub record IsLive (f : Fetch S) : Type ℓ where
    pub once : length f.delivered ≡ one_if f.done
    pub hope : 0 < one_if f.done + hopes f

  -- An answer is being handled: nothing else need be under way.
  abbrev IsCounted : Fetch S → Type 0
  IsCounted f = length f.delivered ≡ one_if f.done

  request-IsLive : (f : Fetch S) → IsCounted f → IsLive (request f)
  unfolding request
  request-IsLive f b = record { once = b; hope = omega arith }

  deliver-IsLive :
      (l : Local S) (s : S) (fresh : Bool) (f : Fetch S)
      → IsCounted f
      → IsLive (deliver l s fresh f)
  unfolding deliver
  deliver-IsLive l s fresh f b =
      if_has IsLive f.done (λ h. record { once = b; hope = rw h (omega arith) })
        (λ h. record {
          once = ground (arith, length-append f.delivered (s ∷ []), b);
          hope = omega arith;
        })

  recover-IsLive :
      (l : Local S) (o : Option S) (e : Failure) (f : Fetch S)
      → IsCounted f
      → IsLive (recover l o e f)
  recover-IsLive l (some s) e f b = deliver-IsLive l s false f b
  recover-IsLive l none e f b =
      if_has IsLive (ltb f.tries max_tries && (e.network && (e.slow && e.windowed)))
        (λ _. record { once = b; hope = omega arith })
        (λ _.
          if_has IsLive e.offline (λ _. record { once = b; hope = omega arith })
            (λ _. deliver-IsLive l l.fallback false f b))

  answered-IsLive :
      (n : ℕ) (next : Fetch S → Fetch S) (f : Fetch S)
      → ((g : Fetch S) → IsCounted g → IsLive (next g))
      → IsLive f
      → IsLive (answered n next f)
  answered-IsLive zero next f live i = i
  answered-IsLive (suc n) next f live i = live (record f { requests = n }) i.once

  timed_out-IsLive : (n : ℕ) (f : Fetch S) → IsLive f → IsLive (timed_out n f)
  timed_out-IsLive zero f i = i
  timed_out-IsLive (suc n) f i = request-IsLive (record f { timers = n }) i.once

  handle-IsLive : (l : Local S) (e : Event S) (f : Fetch S) → IsLive f → IsLive (handle l e f)
  unfolding handle
  handle-IsLive l (succeeded s) f i =
      answered-IsLive f.requests (deliver l s true) f (deliver-IsLive l s true) i
  handle-IsLive l (failed e) f i =
      answered-IsLive f.requests (recover l l.stored e) f (recover-IsLive l l.stored e) i
  handle-IsLive l timer f i = timed_out-IsLive f.timers f i
  handle-IsLive l online f i = if_has IsLive f.listening (λ _. request-IsLive f i.once) (λ _. i)

  kept-IsLive :
      (l : Local S) (es : List (Event S)) (f : Fetch S) → IsLive f → IsLive (handle_all l es f)
  unfolding handle_all
  kept-IsLive l [] f i = i
  kept-IsLive l (e ∷ es) f i = kept-IsLive l es (handle l e f) (handle-IsLive l e f i)

  abbrev idle : Fetch S
  idle = record {
    tries = 0;
    requests = 0;
    timers = 0;
    listening = false;
    done = false;
    delivered = [];
    saved = [];
  }

  -- Whatever answers, failures, timers and returns of the network come, in any order, the caller is
  -- given the settings at most once (exactly when the fetch is done), and until then a request, a
  -- timer or the listener for the network is there to bring them.
  pub handle_all-IsLive : (l : Local S) (es : List (Event S)) → IsLive (handle_all l es fetch)
  unfolding fetch
  handle_all-IsLive l es = kept-IsLive l es fetch (request-IsLive idle refl)
