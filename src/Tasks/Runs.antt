-- ===== src/Tasks/Runs.antt =====
-- Runs of the tasks of app/src/main.rs in which the host types lines in a CDC session.
use nrf52_unifying.Cdc
use nrf52_unifying.Device.{Device}
use nrf52_unifying.Flash.{Nor}
use nrf52_unifying.Prelude.{
  ℕ, ◌+◌, ◌≤◌, ◌≡◌, refl, subst, [], ◌∷◌, length, arith, Run, panic, ret, ◌>>=◌,
}
use nrf52_unifying.Prelude.Text.{Bytes}
use nrf52_unifying.Tasks.{Updater}
use nrf52_unifying.Tasks.Owned.{session_changes}
use nrf52_unifying.Tasks.System.{System, serves, type_, Reach, next}

bind-ret :
    {A B : Type 0} (m : Run A) (f : A → Run B) (b : B)
    → (m >>= f) ≡ ret b
    → (a : A) × (m ≡ ret a) × (f a ≡ ret b)
bind-ret panic f b h = absurd (cc h)
bind-ret (ret a) f b h = (a, refl, h)

ret-injective : {A : Type 0} {a b : A} → ret a ≡ ret b → a ≡ b
ret-injective h = cc h

module _ {D F U : Type 0} (device : Device D) (nor : Nor F) (updater : Updater U) where
  -- Behind what has been typed in a session.
  abbrev pub typed : System D F U → ℕ → Cdc.Outcome U → System D F U
  typed a session o = record a {
    worker = record a.worker { updater = o.1.0 };
    shared = o.1.1.0;
    serving = serves session o.0;
  }

  abbrev pub Typed :
      {start a : System D F U} {n : ℕ}
      → Reach device nor updater start n a
      → ℕ
      → System D F U
      → Type 0
  Typed {start} {a} {n} p more b =
      (q : Reach device nor updater start n b) × (session_changes device nor updater q
        ≤ session_changes device nor updater p + more)

  -- The bytes of a packet, with no step of another task in between.
  pub line_bytes-Typed :
      (texts : Cdc.Texts) (bytes : Bytes) {start : System D F U} {n : ℕ} (a : System D F U)
      (session : ℕ) (r : Cdc.Serial) (o : Cdc.Outcome U) (p : Reach device nor updater start n a)
      → a.serving ≡ serves session r
      → Cdc.line_bytes updater texts session r a.worker.updater a.shared bytes ≡ ret o
      → Typed p (length bytes) (typed a session o)
  unfolding Cdc.line_bytes session_changes
  line_bytes-Typed texts [] a session r o p v h =
      subst (λ o. Typed p 0 (typed a session o)) (ret-injective h)
        (subst (λ v. Typed p 0 (record a { serving = v })) v (p, omega arith))
  line_bytes-Typed texts (b ∷ bytes) a session r o p v h =
      let (o1, e1, h1) =
        bind-ret (Cdc.line_byte updater texts session r a.worker.updater a.shared b) _ o h in
      let (q, e2, h2) =
        bind-ret (Cdc.line_bytes updater texts session o1.0 o1.1.0 o1.1.1.0 bytes) _ o h1 in
      let p1 : Reach device nor updater _ _ (typed a session o1) =
        next p (type_ texts session r b o1 v e1 refl refl) (omega arith) in
      let rest = line_bytes-Typed texts bytes (typed a session o1) session o1.0 q p1 refl e2 in
      subst (λ o. Typed p (length (b ∷ bytes)) (typed a session o)) (ret-injective h2)
        (rest.0, ground (arith, rest.1))
