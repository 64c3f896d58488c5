-- ===== src/Runner/Discipline.antt =====
-- The order of the runner's calls (internal/biz/inference/runner.go), as a property of the history
-- that every step keeps, whatever the ports answer.
pub mod Quota
pub mod Steps
pub mod Execute
use ani_inference_service.Runner.World.{◌>>=◌}
use ani_inference_service.Prelude.{true, [], ◌∷◌, ◌⊎◌, ◌≡◌, Result, ok, refl, err}
use ani_inference_service.Failure.{Error}
use ani_inference_service.Runner.State.{AuditEvent, OperationContext}
use ani_inference_service.Runner.World.{Call, is_ok, continue, History, perform, World, Exec}
use ani_inference_service.Runner.Inversion.{Keeps, keeps_rules, continue-Keeps}

-- The newest call was `c`, and it returned without an error.
abbrev pub JustDone : Call → History → Type 0
JustDone c [] = ⊥
JustDone c (e ∷ h) = e ≡ record { call = c; succeeded = true }

-- The newest call was `c`, and it returned `a`, which is what its port answered.
abbrev pub JustReturned : {A : Type 0} → Call → (History → Result Error A) → A → History → Type 0
JustReturned c f a [] = ⊥
JustReturned c f a (e ∷ h) = (e ≡ record { call = c; succeeded = true }) × (f h ≡ ok a)

-- What must hold of the calls before a call is made.
abbrev pub Justified : World → Call → History → Type 0
Justified w (Call.withdraw p) h = JustDone (Call.save_publication p) h × (p.state ≡ "withdrawing")
Justified w (Call.publish p) h = JustDone (Call.save_publication p) h × (p.state ≡ "publishing")
Justified w (Call.confirm_withdrawn p) h = JustDone (Call.withdraw p) h
Justified w (Call.confirm_published p) h = JustDone (Call.publish p) h
Justified w (Call.advance_step t) h = (a : AuditEvent) × JustDone (Call.append_audit a) h
Justified w (Call.retry_step t d) h = (a : AuditEvent) × JustDone (Call.append_audit a) h
Justified w (Call.cleanup_model op) h = JustDone (Call.delete_cr op) h
Justified w (Call.ensure_model op) h = JustDone (Call.mark_materializing op) h
Justified w (Call.save_model op m) h =
    JustReturned (Call.ensure_model op) (λ g. w.ensure_model g op) m h
    × (m.known ≡ true)
    × (m.ready ≡ true)
Justified w (Call.save_runtime op seen) h =
    JustReturned (Call.observe_runtime op) (λ g. w.observe_runtime g op) seen h
    ⊎ JustReturned (Call.observe_absence op) (λ g. w.observe_absence g op) seen h
Justified w _ h = Unit

-- Every call of the history was justified when it was made.
abbrev pub Orderly : World → History → Type 0
Orderly w [] = Unit
Orderly w (e ∷ h) = Justified w e.call h × Orderly w h

-- A call that needs nothing before it.
abbrev pub IsFree : World → Call → Type 0
IsFree w c = (h : History) → Justified w c h

pub perform-Orderly :
    {A : Type 0} (w : World) (c : Call) (f : History → Result Error A)
    → IsFree w c
    → Keeps (Orderly w) (perform c f)
unfolding perform
perform-Orderly w c f free = record { kept = λ h i. (free h, i) }

pub ruleset orderly_rules = (keeps_rules, perform-Orderly)

-- A call that the call before it justifies: `c` returns a value, then `d` is made, then the rest.
module _ {A B : Type 0} (w : World) (c : Call) (f : History → Result Error A) (d : A → Call)
    (g : A → History → Result Error Unit) (k : A → Exec B) where
  second_call : A → Exec B
  second_call a = perform (d a) (g a) >>= λ _. k a

  second_call-Orderly :
      (free : IsFree w c)
      → ((a : A) (h : History)
          → f h ≡ ok a
          → Justified w (d a) (record { call = c; succeeded = true } ∷ h))
      → ((a : A) → Keeps (Orderly w) (k a))
      → (h : History) (r : Result Error A) → f h ≡ r
      → Orderly w h
      → Orderly w (continue r second_call (record { call = c; succeeded = is_ok r } ∷ h)).1
  unfolding ◌>>=◌ second_call
  second_call-Orderly free just keep h (err x) e i = (free h, i)
  second_call-Orderly free just keep h (ok a) e i =
      (continue-Keeps (g a _) (λ _. k a) (λ _. keep a)).kept _ (just a h e, (free h, i))

  pub pair-Orderly :
      IsFree w c
      → ((a : A) (h : History)
          → f h ≡ ok a
          → Justified w (d a) (record { call = c; succeeded = true } ∷ h))
      → ((a : A) → Keeps (Orderly w) (k a))
      → Keeps (Orderly w) (perform c f >>= λ a. perform (d a) (g a) >>= λ _. k a)
  unfolding ◌>>=◌ second_call
  pair-Orderly free just keep = record {
    kept = λ h i. second_call-Orderly free just keep h (f h) refl i;
  }

-- The same where the second call is the last.
module _ {A : Type 0} (w : World) (c : Call) (f : History → Result Error A) (d : Call)
    (g : History → Result Error Unit) where
  last_call-Orderly :
      IsFree w c
      → ((h : History) → JustDone c h → Justified w d h)
      → (h : History) (r : Result Error A) → Orderly w h
      → Orderly w (continue r (λ _. perform d g) (record { call = c; succeeded = is_ok r } ∷ h)).1
  unfolding ◌>>=◌
  last_call-Orderly free just h (err x) i = (free h, i)
  last_call-Orderly free just h (ok a) i = (just _ refl, (free h, i))

  pub last-Orderly :
      IsFree w c
      → ((h : History) → JustDone c h → Justified w d h)
      → Keeps (Orderly w) (perform c f >>= λ _. perform d g)
  unfolding ◌>>=◌
  last-Orderly free just = record { kept = λ h i. last_call-Orderly free just h (f h) i }
