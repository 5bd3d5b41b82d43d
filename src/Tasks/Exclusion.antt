-- ===== src/Tasks/Exclusion.antt =====
-- While a CDC session owns the board, the worker of app/src/main.rs executes nothing for the UART;
-- while the UART uploads, nothing but the upload.
use nrf52_unifying.Device.{Device}
use nrf52_unifying.Flash.{Nor}
use nrf52_unifying.Prelude.{
  ℕ, ◌≤◌, ◌≡◌, refl, sym, subst, true, false, not, ◌||◌, Option, none, some, length, ◌==◌, take,
  ret, Returns, Returns-bind, Returns-if, arith,
}
use nrf52_unifying.Prelude.Buffer.{slice_to, copy, slice-length}
use nrf52_unifying.Prelude.Text.{Bytes}
use nrf52_unifying.Tasks.{Source, uart, Request, Reply, Shared, new_reply, write, Updater}
use nrf52_unifying.Tasks.Accept.{busy, say, admit, serve, after_admission, accept}
use nrf52_unifying.Tasks.Worker.{Worker, Board, poll_if_due}
use nrf52_unifying.UartLink.{CommandError}

-- A reply to this source that says so.
pub record IsBusy (source : Source) (reply : Reply) : Type 0 where
  pub for_ : reply.source ≡ source
  pub says : take reply.len reply.bytes ≡ busy
  pub said : (reply.len == 0) ≡ false

say-busy : (source : Source) → Returns (say (new_reply source) busy) (IsBusy source)
unfolding write copy
say-busy source = record { for_ = refl; says = refl; said = refl }

module _ {D F U : Type 0} (device : Device D) (nor : Nor F) (updater : Updater U) where
  -- What has been answered already is not served.
  serve_answered :
      (board : Board) (source : Source) (error : Option CommandError) (line : Bytes) (sink : Reply)
      (w : Worker D F U) (s : Shared)
      → (sink.len == 0) ≡ false
      → serve device nor updater board source error line sink w s ≡ ret (sink, (w, s))
  unfolding serve
  serve_answered board source error line sink w s h = simp h refl

  -- Nothing has been done for the request but, at most, to refuse it.
  abbrev pub Refused :
      Source → Worker D F U → Shared → Worker D F U × (Shared × Option Reply) → Type 0
  Refused source w s (w', (s', none)) = (w' ≡ w) × (s' ≡ s)
  Refused source w s (w', (s', some reply)) = (w' ≡ w) × (s' ≡ s) × IsBusy source reply

  -- The admission refuses, or drops.
  abbrev Refuses : Source → Shared → Option (Reply × Shared) → Type 0
  Refuses source s none = Unit {0}
  Refuses source s (some (reply, s')) = (s' ≡ s) × IsBusy source reply

  admit_excluded :
      (number session fault : ℕ) (error : Option CommandError) (line : Bytes) (seen : ℕ)
      (s : Shared)
      → s.cdc_active ≡ true
      → let source = uart number session fault in
        Returns (admit source error line seen (new_reply source) s) (Refuses source s)
  unfolding admit
  admit_excluded number session fault error line seen s h =
      let source = uart number session fault in
      let excluded : (s.cdc_active || not (session == s.cdc_session)) ≡ true = ground (arith, h) in
      Returns-if (not (fault == s.uart_generation)) _ _ (Refuses source s) tt (
        simp excluded (
          Returns-bind (say (new_reply source) busy) (λ r. ret (some (r, s))) (IsBusy source)
            (Refuses source s) (say-busy source) (λ r b. (refl, b))))

  refused :
      (board : Board) (request : Request) (line : Bytes) (w : Worker D F U) (s : Shared)
      (admitted : Option (Reply × Shared))
      → Refuses request.source s admitted
      → Returns
          (after_admission device nor updater board request line w s admitted)
          (Refused request.source w s)
  unfolding after_admission
  refused board request line w s none h = (refl, refl)
  refused board request line w s (some (reply, s')) h =
      rw (serve_answered board request.source request.error line reply w s' h.1.said)
        (refl, h.0, h.1)

  -- While a CDC session is active, a UART request whose length is within its array is handled
  -- without a panic, changes nothing in the shared state, and changes the worker only as the
  -- radio's poll does if it is due; it is dropped, or answered with ERR BUSY to its source.
  pub accept-Refused :
      (board : Board) (request : Request) (number session fault : ℕ) (w : Worker D F U) (s : Shared)
      → s.cdc_active ≡ true
      → request.source ≡ uart number session fault
      → request.len ≤ length request.line
      → Returns
          (accept device nor updater board request w s)
          (Refused request.source (poll_if_due device nor updater board s w) s)
  unfolding accept
  accept-Refused board request number session fault w s h src fits =
      let w' = poll_if_due device nor updater board s w in
      let P = Refused request.source w' s in
      Returns-bind (slice_to request.line request.len) _ (λ line. length line ≡ request.len) P
        (slice-length request.line request.len fits)
        (λ line _.
          Returns-bind
            (admit request.source request.error line w'.session_seen (new_reply request.source) s) _
            (Refuses request.source s) P
            (subst
              (λ source.
                Returns (admit source request.error line w'.session_seen (new_reply source) s)
                  (Refuses source s))
              (sym src)
              (admit_excluded number session fault request.error line w'.session_seen s h))
            (λ admitted r. refused board request line w' s admitted r))
