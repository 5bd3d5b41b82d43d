-- ===== src/Tasks/Replies.antt =====
-- The replies of the worker of app/src/main.rs: whom they are for, and that they fit their array.
use nrf52_unifying.Device.{Device, IsDevice}
use nrf52_unifying.Flash.{Nor}
use nrf52_unifying.Prelude.{
  ℕ, ◌+◌, ◌^◌, ◌≤◌, ◌<◌, ◌≡◌, refl, sym, subst, Bool, true, false, not, ◌&&◌, ◌||◌, Option, none,
  some, List, [], ◌∷◌, ◌++◌, length, length-replicate, ltb, ◌==◌, if◌then◌else◌, ret, ◌>>=◌,
  Returns, Returns-bind, Returns-weaken, Returns-if, arith, Bool-cases, inl, inr,
}
use nrf52_unifying.Prelude.Buffer.{slice_to, IsFilled, copy-IsFilled, slice-length}
use nrf52_unifying.Prelude.Text.{Bytes, codes, eq_bytes, starts_with}
use nrf52_unifying.Storage.{max_profiles}
use nrf52_unifying.Tasks.{
  Source, cdc, uart, Request, Reply, Shared, new_reply, write, write_all, Updater,
}
use nrf52_unifying.Tasks.Accept.{
  busy, say, admit, run_ota, before_upload, upload_line, answer, serve, after_admission, accept,
  is_uart, is_current, is_ver,
}
use nrf52_unifying.Tasks.Worker.{Worker, Board, poll_if_due, poll_radio, keep_alive, ticked, all_up}
use nrf52_unifying.UartLink.{CommandError, command, argument}
use nrf52_unifying.Unifying.Answers.{Answered}
use nrf52_unifying.Unifying.Handle.{handle_unifying_command}
use nrf52_unifying.Unifying.Total.{handle_unifying_command-Answered}

-- A reply for a source, with its text at the start of an array of 512 bytes.
pub record IsReply (source : Source) (reply : Reply) : Type 0 where
  pub for_ : reply.source ≡ source
  pub text : Bytes
  pub filled : IsFilled 512 reply.bytes reply.len text

new_reply-IsReply : (source : Source) → IsReply source (new_reply source)
new_reply-IsReply source = record {
  for_ = refl;
  text = [];
  filled = record { cap_is = length-replicate {A = ℕ} 512 0; starts = refl; len_is = refl };
}

write-IsReply :
    (source : Source) (reply : Reply) (text : Bytes)
    → IsReply source reply
    → Returns (write reply text) (λ r. IsReply source r.0)
unfolding write
write-IsReply source reply text h =
    elim (Bool-cases (ltb (length reply.bytes) (reply.len + length text))) [
      | inl full ↦ rw full h
      | inr room ↦
          let (bytes, e, f) = copy-IsFilled text h.filled (ground (arith, room, h.filled.cap_is)) in
          rw room (rw e (record { for_ = h.for_; text = h.text ++ text; filled = f }))
    ]

say-IsReply :
    (source : Source) (reply : Reply) (text : Bytes)
    → IsReply source reply
    → Returns (say reply text) (IsReply source)
say-IsReply source reply text h =
    Returns-bind (write reply text) _ (λ r. IsReply source r.0) (IsReply source)
      (write-IsReply source reply text h) (λ r k. k)

write_all-IsReply :
    (source : Source) (reply : Reply) (texts : List Bytes)
    → IsReply source reply
    → Returns (write_all reply texts) (IsReply source)
unfolding write_all
write_all-IsReply source reply [] h = h
write_all-IsReply source reply (text ∷ texts) h =
    Returns-bind (write reply text) _ (λ r. IsReply source r.0) (IsReply source)
      (write-IsReply source reply text h) (λ r k. write_all-IsReply source r.0 texts k)

module _ {D F U : Type 0} (device : Device D) (nor : Nor F) (updater : Updater U)
    (laws : IsDevice device) where
  -- The active slot is one of the profiles'.
  abbrev pub IsSlotted : Worker D F U → Type 0
  IsSlotted w = w.unifying.active_slot < max_profiles

  poll_if_due-IsSlotted :
      (board : Board) (s : Shared) (w : Worker D F U)
      → IsSlotted w
      → IsSlotted (poll_if_due device nor updater board s w)
  unfolding poll_if_due poll_radio keep_alive ticked
  poll_if_due-IsSlotted board s w h = ground arith

  run_ota-IsSlotted :
      (line : Bytes) (w : Worker D F U)
      → IsSlotted w
      → IsSlotted (run_ota device nor updater line (before_upload device nor updater line w)).0
  unfolding run_ota before_upload all_up
  run_ota-IsSlotted line w h = ground arith

  abbrev Served : Source → Reply × (Worker D F U × Shared) → Type 0
  Served source (reply, (w, s)) = IsReply source reply × IsSlotted w

  upload_line-Served :
      (source : Source) (now : ℕ) (line : Bytes) (sink : Reply) (w : Worker D F U) (s : Shared)
      → IsReply source sink
      → IsSlotted w
      → Returns (upload_line device nor updater now line sink w s) (Served source)
  unfolding upload_line
  upload_line-Served source now line sink w s h k =
      let after = run_ota device nor updater line (before_upload device nor updater line w) in
      Returns-if s.upload_active _ _ (Served source)
        (Returns-bind (say sink busy) (λ r. ret (r, (w, s))) (IsReply source) (Served source)
          (say-IsReply source sink busy h) (λ r f. (f, k)))
        (Returns-bind (say sink after.1.0) _ (IsReply source) (Served source)
          (say-IsReply source sink after.1.0 h) (λ r f. (f, run_ota-IsSlotted line w k)))

  handle_empty :
      (board : Board) (w : Worker D F U) (line : Bytes)
      → eq_bytes line [] ≡ true
      → handle_unifying_command device nor board.version_reply board.clock w.unifying w.flash line
        ≡ ret (w.unifying, (w.flash, []))
  unfolding handle_unifying_command
  handle_empty board w line e = rw e refl

  handle-IsSlotted :
      (board : Board) (w : Worker D F U) (line : Bytes)
      → IsSlotted w
      → length line < 2 ^ 32
      → Returns
          (handle_unifying_command device nor board.version_reply board.clock w.unifying w.flash
            line)
          (λ o. o.0.active_slot < max_profiles)
  handle-IsSlotted board w line h l = elim (Bool-cases (eq_bytes line [])) [
    | inl e ↦
        subst (λ m. Returns m (λ o. o.0.active_slot < max_profiles))
          (sym (handle_empty board w line e)) h
    | inr e ↦
        Returns-weaken
          (handle_unifying_command device nor board.version_reply board.clock w.unifying w.flash
            line)
          (Answered device nor laws) (λ o. o.0.active_slot < max_profiles)
          (handle_unifying_command-Answered device nor laws board.version_reply board.clock
            w.unifying w.flash line h e l)
          (λ o a. a.0)
  ]

  abbrev Heard : Source → Reply × Worker D F U → Type 0
  Heard source (reply, w) = IsReply source reply × IsSlotted w

  answer-Heard :
      (source : Source) (board : Board) (error : Option CommandError) (line : Bytes) (sink : Reply)
      (w : Worker D F U)
      → IsReply source sink
      → IsSlotted w
      → length line < 2 ^ 32
      → Returns (answer device nor updater board error line sink w) (Heard source)
  unfolding answer
  answer-Heard source board (some command) line sink w h k l =
      Returns-bind (say sink (codes "ERR CMD\r\n")) (λ r. ret (r, w)) (IsReply source)
        (Heard source) (say-IsReply source sink (codes "ERR CMD\r\n") h) (λ r f. (f, k))
  answer-Heard source board (some argument) line sink w h k l =
      Returns-bind (say sink (codes "ERR ARG\r\n")) (λ r. ret (r, w)) (IsReply source)
        (Heard source) (say-IsReply source sink (codes "ERR ARG\r\n") h) (λ r f. (f, k))
  answer-Heard source board none line sink w h k l =
      Returns-bind
        (handle_unifying_command device nor board.version_reply board.clock w.unifying w.flash line)
        _ (λ o. o.0.active_slot < max_profiles) (Heard source) (handle-IsSlotted board w line k l)
        (λ o slot.
          Returns-bind (write_all sink o.1.1) _ (IsReply source) (Heard source)
            (write_all-IsReply source sink o.1.1 h) (λ r f. (f, slot)))

  serve-Served :
      (board : Board) (source : Source) (error : Option CommandError) (line : Bytes) (sink : Reply)
      (w : Worker D F U) (s : Shared)
      → IsReply source sink
      → IsSlotted w
      → length line < 2 ^ 32
      → Returns (serve device nor updater board source error line sink w s) (Served source)
  unfolding serve
  serve-Served board source error line sink w s h k l =
      Returns-bind
        (if sink.len == 0 && is_uart source && starts_with (codes "OTA ") line
          then upload_line device nor updater board.now line sink w s
          else ret (sink, (w, s)))
        _ (Served source) (Served source)
        (Returns-if (sink.len == 0 && is_uart source && starts_with (codes "OTA ") line) _ _
          (Served source) (upload_line-Served source board.now line sink w s h k) (h, k))
        (λ r f.
          Returns-bind (if r.0.len == 0 && r.1.0.ota.active then say r.0 busy else ret r.0) _
            (IsReply source) (Served source)
            (Returns-if (r.0.len == 0 && r.1.0.ota.active) _ _ (IsReply source)
              (say-IsReply source r.0 busy f.0) f.0)
            (λ sink' g.
              Returns-bind
                (if sink'.len == 0
                  then answer device nor updater board error line sink' r.1.0
                  else ret (sink', r.1.0))
                _ (Heard source) (Served source)
                (Returns-if (sink'.len == 0) _ _ (Heard source)
                  (answer-Heard source board error line sink' r.1.0 g f.1 l) (g, f.1))
                (λ a c. c)))

  abbrev Admitted : Source → Option (Reply × Shared) → Type 0
  Admitted source none = Unit {0}
  Admitted source (some (sink, s)) = IsReply source sink

  busy-Admitted :
      (source : Source) (sink : Reply) (s : Shared)
      → IsReply source sink
      → Returns (say sink busy >>= λ r. ret (some (r, s))) (Admitted source)
  busy-Admitted source sink s h =
      Returns-bind (say sink busy) (λ r. ret (some (r, s))) (IsReply source) (Admitted source)
        (say-IsReply source sink busy h) (λ r f. f)

  admit-Admitted :
      (source : Source) (error : Option CommandError) (line : Bytes) (seen : ℕ) (sink : Reply)
      (s : Shared)
      → IsReply source sink
      → Returns (admit source error line seen sink s) (Admitted source)
  unfolding admit
  admit-Admitted (cdc epoch) error line seen sink s h =
      current (is_current s epoch && seen == epoch)
    where
      current : (b : Bool) → Admitted (cdc epoch) (if b then some (sink, s) else none)
      current true = h
      current false = tt
  admit-Admitted (uart number session fault) error line seen sink s h =
      let P = Admitted (uart number session fault) in
      let b = busy-Admitted (uart number session fault) sink s h in
      Returns-if (not (fault == s.uart_generation)) _ _ P tt (
        Returns-if (s.cdc_active || not (session == s.cdc_session)) _ _ P b
          (Returns-if s.uart_sync_required _ _ P (Returns-if (is_ver error line) _ _ P h b) h))

  -- The worker goes on, and a reply is one to the request.
  abbrev pub Addressed : Source → Worker D F U × (Shared × Option Reply) → Type 0
  Addressed source (w, (s, none)) = IsSlotted w
  Addressed source (w, (s, some reply)) = IsSlotted w × IsReply source reply

  after_admission-Addressed :
      (board : Board) (request : Request) (line : Bytes) (w : Worker D F U) (s : Shared)
      (admitted : Option (Reply × Shared))
      → IsSlotted w
      → length line < 2 ^ 32
      → Admitted request.source admitted
      → Returns
          (after_admission device nor updater board request line w s admitted)
          (Addressed request.source)
  unfolding after_admission
  after_admission-Addressed board request line w s none k l a = k
  after_admission-Addressed board request line w s (some (sink, s')) k l a =
      Returns-bind (serve device nor updater board request.source request.error line sink w s') _
        (Served request.source) (Addressed request.source)
        (serve-Served board request.source request.error line sink w s' a k l) (λ r f. (f.1, f.0))

  -- Let the device be one whose profile fields have the range of their types, hold what is
  -- assigned to them and are kept when the radio is configured, and that has fewer than 256
  -- pairing channels; then for any request in an array of 256 bytes whose length is within it, and
  -- a worker whose active slot is one of the profiles', the worker does not panic, its active slot
  -- is one of the profiles' again, and a reply, if there is one, is for the source of the request
  -- and stands at the start of an array of 512 bytes which it fits.
  pub accept-Addressed :
      (board : Board) (request : Request) (w : Worker D F U) (s : Shared)
      → IsSlotted w
      → request.len ≤ length request.line
      → length request.line ≡ 256
      → Returns (accept device nor updater board request w s) (Addressed request.source)
  unfolding accept
  accept-Addressed board request w s k fits cap =
      let w' = poll_if_due device nor updater board s w in
      Returns-bind (slice_to request.line request.len) _ (λ line. length line ≡ request.len)
        (Addressed request.source) (slice-length request.line request.len fits)
        (λ line e.
          Returns-bind
            (admit request.source request.error line w'.session_seen (new_reply request.source) s) _
            (Admitted request.source) (Addressed request.source)
            (admit-Admitted request.source request.error line w'.session_seen
              (new_reply request.source) s (new_reply-IsReply request.source))
            (λ admitted a.
              after_admission-Addressed board request line w' s admitted
                (poll_if_due-IsSlotted board s w k) (omega (arith, e, fits, cap)) a))
