-- ===== src/Events/Flush.antt =====
-- What a flush of the buffered events delivers, and what a raising handler leaves behind.
use mathlib.Core.List.{append-nil, append_assoc}
use memovi.Prelude.{String, ◌≡◌, Option, none, some, List, [], ◌∷◌, ◌++◌, All, ◌∙◌, ap}
use memovi.Events.{
  InProcessEventDispatcher, TransactionScopedEventPublisher, run_handlers, dispatch, dispatch_all,
  flush,
}

module _ {A E : Type 0} (event_type : A → String) where
  -- No handler of the event raises.
  abbrev pub Passes : List (String × (A → Option E)) → A → Type 0
  Passes subscribers event = run_handlers (event_type event) event subscribers ≡ none

  dispatch-Passes :
      (event : A) (d : InProcessEventDispatcher A E)
      → Passes d.subscribers event
      → dispatch event_type event d
        ≡ (none, record d { published_events = d.published_events ++ event ∷ [] })
  unfolding dispatch
  dispatch-Passes event d h = rw (h, dispatch)

  dispatch_raises :
      (event : A) (d : InProcessEventDispatcher A E) (e : E)
      → run_handlers (event_type event) event d.subscribers ≡ some e
      → dispatch event_type event d ≡ (some e, d)
  unfolding dispatch
  dispatch_raises event d e h = rw (h, dispatch)

  dispatch_all-Passes :
      (events : List A) (d : InProcessEventDispatcher A E)
      → All (Passes d.subscribers) events
      → dispatch_all event_type events d
        ≡ (none, record d { published_events = d.published_events ++ events })
  unfolding dispatch_all
  dispatch_all-Passes [] d h = rw append-nil
  dispatch_all-Passes (event ∷ rest) d h =
      let d' = record d { published_events = d.published_events ++ event ∷ [] } in
      rw (dispatch-Passes event d h.0) (dispatch_all-Passes rest d' h.1 ∙ rw append_assoc)

  dispatch_all_raises :
      (before : List A) (bad : A) (after : List A) (d : InProcessEventDispatcher A E) (e : E)
      → All (Passes d.subscribers) before
      → run_handlers (event_type bad) bad d.subscribers ≡ some e
      → dispatch_all event_type (before ++ bad ∷ after) d
        ≡ (some e, record d { published_events = d.published_events ++ before })
  unfolding dispatch_all
  dispatch_all_raises [] bad after d e h raises =
      rw (dispatch_raises bad d e raises) (rw append-nil)
  dispatch_all_raises (event ∷ rest) bad after d e h raises =
      let d' = record d { published_events = d.published_events ++ event ∷ [] } in
      rw (dispatch-Passes event d h.0)
        (dispatch_all_raises rest bad after d' e h.1 raises ∙ rw append_assoc)

  -- When no handler raises, a flush delivers the buffered events in order and empties the buffer.
  pub flush_delivers :
      (p : TransactionScopedEventPublisher A E)
      → All (Passes p.inner.subscribers) p.pending
      → flush event_type p ≡ (
        none,
        record {
          inner = record {
            subscribers = p.inner.subscribers;
            published_events = p.inner.published_events ++ p.pending;
          };
          pending = [];
        },
      )
  unfolding flush
  flush_delivers p h = rw (dispatch_all-Passes p.pending p.inner h)

  -- When a handler raises, the events before that one are delivered, and the whole buffer is kept.
  pub flush_raises :
      (before : List A) (bad : A) (after : List A) (d : InProcessEventDispatcher A E) (e : E)
      → All (Passes d.subscribers) before
      → run_handlers (event_type bad) bad d.subscribers ≡ some e
      → flush event_type (record { inner = d; pending = before ++ bad ∷ after }) ≡ (
        some e,
        record {
          inner = record d { published_events = d.published_events ++ before };
          pending = before ++ bad ∷ after;
        },
      )
  unfolding flush
  flush_raises before bad after d e h raises =
      rw (dispatch_all_raises before bad after d e h raises)

  -- After a flush in which `bad` raised, a flush that meets no raising handler delivers the whole
  -- buffer: the events before `bad` have then been delivered twice.
  pub flush_redelivers :
      (before : List A) (bad : A) (after : List A) (d : InProcessEventDispatcher A E) (e : E)
      (mended : List (String × (A → Option E)))
      → All (Passes d.subscribers) before
      → run_handlers (event_type bad) bad d.subscribers ≡ some e
      → All (Passes mended) (before ++ bad ∷ after)
      → let left = (flush event_type (record { inner = d; pending = before ++ bad ∷ after })).1 in
        let retried = record left { inner = record left.inner { subscribers = mended } } in
        (flush event_type retried).1.inner.published_events
        ≡ (d.published_events ++ before) ++ (before ++ bad ∷ after)
  flush_redelivers before bad after d e mended h raises h' =
      rw (flush_raises before bad after d e h raises) (
        ap (λ r. r.1.inner.published_events)
          (flush_delivers
            (record {
              inner = record {
                subscribers = mended;
                published_events = d.published_events ++ before;
              };
              pending = before ++ bad ∷ after;
            })
            h'))
