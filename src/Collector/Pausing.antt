-- ===== src/Collector/Pausing.antt =====
-- The events of event-stream-store.ts across pause and resume.
use cantontrace.Base.{
  ℕ, zero, suc, ◌≤◌, ◌≡◌, refl, sym, ap, ◌∙◌, List, [], ◌∷◌, ◌++◌, true, false, Bool-cases, inl,
  inr, ltb, length, take, length-append, arith, append_assoc, append-nil, take_of_length-le,
}
use cantontrace.Ledger.{LedgerUpdate}
use cantontrace.Collector.{
  Collector, max_events, max_buffer, newest, add_event, on_event, pause, resume,
}
use cantontrace.Collector.Window.{newest_of_le, length-newest-le, newest-newest-append}

-- One message after another.
unfoldable pub receive : List LedgerUpdate → Collector → Collector
receive [] c = c
receive (e ∷ es) c = receive es (on_event e c)

on_event-flowing :
    (e : LedgerUpdate) (c : Collector) → c.paused_ref ≡ false → on_event e c ≡ add_event e c
unfolding on_event
on_event-flowing e c flowing = rw (on_event, flowing) refl

on_event-room :
    (e : LedgerUpdate) (c : Collector)
    → c.paused_ref ≡ true
    → ltb (length c.buffer_ref) max_buffer ≡ true
    → on_event e c ≡ record c { buffer_ref = c.buffer_ref ++ e ∷ [] }
unfolding on_event
on_event-room e c paused room = rw (on_event, paused, room) refl

on_event-full :
    (e : LedgerUpdate) (c : Collector)
    → c.paused_ref ≡ true
    → ltb (length c.buffer_ref) max_buffer ≡ false
    → on_event e c ≡ c
unfolding on_event
on_event-full e c paused full = rw (on_event, paused, full) refl

-- While the stream is not paused, each update that arrives is shown: the events are the newest 5000 of
-- those that were there and the new ones, in the order of their arrival. There were at most 5000.
pub events-receive :
    (es : List LedgerUpdate) (c : Collector)
    → c.paused_ref ≡ false
    → length c.events ≤ max_events
    → (receive es c).events ≡ newest (c.events ++ es)
unfolding receive on_event add_event
events-receive [] c flowing h = sym (ap newest (append-nil c.events) ∙ newest_of_le c.events h)
events-receive (e ∷ es) c flowing h =
    let rest : (receive es (add_event e c)).events ≡ newest (newest (c.events ++ e ∷ []) ++ es) =
      events-receive es (add_event e c) flowing (length-newest-le (c.events ++ e ∷ [])) in
    rw (receive, on_event-flowing e c flowing)
      (rest
        ∙ newest-newest-append (c.events ++ e ∷ []) es
        ∙ ap newest (append_assoc c.events (e ∷ []) es))

take-append_of_full : (n : ℕ) (b es : List LedgerUpdate) → length b ≡ n → take n (b ++ es) ≡ b
take-append_of_full zero [] es h = refl
take-append_of_full (suc n) [] es h = absurd (omega arith)
take-append_of_full zero (x ∷ b) es h = absurd (omega arith)
take-append_of_full (suc n) (x ∷ b) es h = ap (◌∷◌ x) (take-append_of_full n b es (omega arith))

receive-paused :
    (es : List LedgerUpdate) (c : Collector)
    → c.paused_ref ≡ true
    → length c.buffer_ref ≤ max_buffer
    → ((receive es c).events ≡ c.events)
      × ((receive es c).buffer_ref ≡ take max_buffer (c.buffer_ref ++ es))
unfolding receive on_event
receive-paused [] c paused h = (
  refl,
  sym (
      ap (take max_buffer) (append-nil c.buffer_ref) ∙ take_of_length-le max_buffer c.buffer_ref h),
)
receive-paused (e ∷ es) c paused h = elim (Bool-cases (ltb (length c.buffer_ref) max_buffer)) [
  | inl room ↦
      let b : List LedgerUpdate = c.buffer_ref ++ e ∷ [] in
      let fits : length b ≤ max_buffer = ground (arith, length-append c.buffer_ref (e ∷ [])) in
      let (shown, kept) = receive-paused es (record c { buffer_ref = b }) paused fits in
      rw (receive, on_event-room e c paused room)
        (shown, kept ∙ ap (take max_buffer) (append_assoc c.buffer_ref (e ∷ []) es))
  | inr full ↦
      let (shown, kept) = receive-paused es c paused h in
      let most : length c.buffer_ref ≡ max_buffer = ground arith in
      rw (receive, on_event-full e c paused full)
        (
          shown,
          kept
              ∙ take-append_of_full max_buffer c.buffer_ref es most
              ∙ sym (take-append_of_full max_buffer c.buffer_ref (e ∷ es) most),
        )
]

events-resume :
    (c : Collector)
    → length c.events ≤ max_events
    → (resume c).events ≡ newest (c.events ++ c.buffer_ref)
unfolding resume
events-resume c h = go c c.buffer_ref refl h
  where
    go :
        (c : Collector) (b : List LedgerUpdate)
        → c.buffer_ref ≡ b
        → length c.events ≤ max_events
        → (resume c).events ≡ newest (c.events ++ c.buffer_ref)
    go c [] e h = rw (resume, e) (sym (ap newest (append-nil c.events) ∙ newest_of_le c.events h))
    go c (u ∷ us) e h = rw (resume, e) refl

-- Pausing, receiving updates and resuming shows the newest 5000 of the events that were there and the
-- first 2000 of those updates, in the order of their arrival. There were at most 5000 events.
pub events-resume-receive-pause :
    (es : List LedgerUpdate) (c : Collector)
    → length c.events ≤ max_events
    → (resume (receive es (pause c))).events ≡ newest (c.events ++ take max_buffer es)
unfolding pause
events-resume-receive-pause es c h =
    let (shown, kept) = receive-paused es (pause c) refl (omega arith) in
    let fits : length (receive es (pause c)).events ≤ max_events = rw shown h in
    rw (events-resume (receive es (pause c)) fits, shown, kept) refl

-- A pause of at most 2000 updates leaves no trace in the events: they are those of a stream that is
-- not paused. There were at most 5000 events, and the stream was not paused before.
pub events-resume-receive-pause_eq :
    (es : List LedgerUpdate) (c : Collector)
    → c.paused_ref ≡ false
    → length c.events ≤ max_events
    → length es ≤ max_buffer
    → (resume (receive es (pause c))).events ≡ (receive es c).events
events-resume-receive-pause_eq es c flowing h few =
    events-resume-receive-pause es c h
    ∙ ap (λ l. newest (c.events ++ l)) (take_of_length-le max_buffer es few)
    ∙ sym (events-receive es c flowing h)
