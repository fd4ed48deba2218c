-- ===== src/Events.antt =====
-- apps/api/src/api/events/in_process_event_dispatcher.py: the synchronous dispatcher of domain events
-- and the publisher that buffers them. A subscriber is registered under the type of the events that it
-- wants, here a text. What a handler does is a parameter: it raises an `E` (`some`) or returns.
pub mod Flush
use memovi.Prelude.{String, Option, none, some, List, [], ◌∷◌, ◌++◌, str_eq, if◌then◌else◌}

pub record InProcessEventDispatcher (A E : Type 0) : Type 0 where
  pub subscribers : List (String × (A → Option E))
  pub published_events : List A

pub record TransactionScopedEventPublisher (A E : Type 0) : Type 0 where
  pub inner : InProcessEventDispatcher A E
  pub pending : List A

module _ {A E : Type 0} where
  -- An exception passes the rest of the statements over.
  abbrev pub resume :
      Option E × InProcessEventDispatcher A E
      → (InProcessEventDispatcher A E → Option E × InProcessEventDispatcher A E)
      → Option E × InProcessEventDispatcher A E
  resume (some e, d) k = (some e, d)
  resume (none, d) k = k d

  -- What `flush` does once its loop has ended.
  abbrev pub settle :
      List A
      → Option E × InProcessEventDispatcher A E
      → Option E × TransactionScopedEventPublisher A E
  settle buffer (some e, d) = (some e, record { inner = d; pending = buffer })
  settle buffer (none, d) = (none, record { inner = d; pending = [] })

  unfoldable pub subscribe :
      String → (A → Option E) → InProcessEventDispatcher A E → InProcessEventDispatcher A E
  subscribe event_type handler d = record d {
    subscribers = d.subscribers ++ (event_type, handler) ∷ [];
  }

  -- `for handler in self._subscribers.get(type(event), [])`: an exception ends the loop.
  unfoldable pub run_handlers : String → A → List (String × (A → Option E)) → Option E
  run_handlers kind event [] = none
  run_handlers kind event ((wanted, handler) ∷ rest) =
      let later = run_handlers kind event rest in
      if str_eq wanted kind
      then (elim (handler event) [ some e ↦ some e | none ↦ later ])
      else later

  module _ (event_type : A → String) where
    -- The event is recorded only when every handler has returned.
    unfoldable pub dispatch :
        A → InProcessEventDispatcher A E → Option E × InProcessEventDispatcher A E
    dispatch event d = elim (run_handlers (event_type event) event d.subscribers) [
      | some e ↦ (some e, d)
      | none ↦ (none, record d { published_events = d.published_events ++ event ∷ [] })
    ]

    unfoldable pub dispatch_all :
        List A → InProcessEventDispatcher A E → Option E × InProcessEventDispatcher A E
    dispatch_all [] d = (none, d)
    dispatch_all (event ∷ rest) d = resume (dispatch event d) (dispatch_all rest)

    -- `flush`: the buffer is cleared only if no event raised.
    unfoldable pub flush :
        TransactionScopedEventPublisher A E → Option E × TransactionScopedEventPublisher A E
    flush p = settle p.pending (dispatch_all p.pending p.inner)

  -- `TransactionScopedEventPublisher.publish`.
  unfoldable pub publish :
      A → TransactionScopedEventPublisher A E → TransactionScopedEventPublisher A E
  publish event p = record p { pending = p.pending ++ event ∷ [] }
