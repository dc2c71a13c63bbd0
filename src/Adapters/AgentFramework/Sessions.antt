-- ===== src/Adapters/AgentFramework/Sessions.antt =====
-- One provider serves many sessions: what a session stores reaches no other, and is read back in its
-- own.
use yaadien.Prelude.{◌≡◌, ◌≢◌, refl, ap, ◌∙◌, Option, none, some, List, [], ◌∷◌, inl, inr}
use yaadien.Model.{Ident, MemoryScope, Result-cases, ok, ◌>>=◌}
use yaadien.Db.{working_memory, Env, rows-tick}
use yaadien.Repository.Isolation.{KeepsOutside, is_outside}
use yaadien.Prelude.Table.{select}
use yaadien.Repository.Isolation.Reads.{NeverExpires, different_threads, list_all-KeepsOutside}
use yaadien.Store.Pipeline.{Pipeline, StoreState}
use yaadien.Store.Ingest.{remember}
use yaadien.Store.Ingest.Safety.{remember-KeepsOutside}
use yaadien.Store.Entry.{tick_state}
use yaadien.Adapters.{fresh_record}
use yaadien.Adapters.Json.{Python, RoundTrips, object, set_default}
use yaadien.Adapters.AgentFramework.{
  ContextProvider, Session, RunState, persist_messages, after_run, get_messages, provider_scope,
  history_scope, extract_turn_messages, role_metadata, readable,
}
use yaadien.Adapters.AgentFramework.Messages.{
  Message, message_to_content, content_to_message_dict, message_dict, message_role, message_text,
}
use mathlib.Core.List.{reverse}

-- What a remember in the scope keeps is kept by the loop over the messages.
pub persist_messages-KeepsOutside :
    (e : Env) (p : Pipeline) (py : Python) (scope : MemoryScope) (l : List Message) (s : StoreState)
    → KeepsOutside scope s.db (persist_messages e p py scope l s).1.db
unfolding persist_messages
persist_messages-KeepsOutside e p py scope [] s u = refl
persist_messages-KeepsOutside e p py scope (m ∷ l) s u =
    let new = fresh_record e scope (message_to_content py m) (role_metadata py m) s.db in
    let step = remember e p working_memory new scope (tick_state s) in
    let kept =
      remember-KeepsOutside e p working_memory new scope (tick_state s) u
      ∙ ap (select (is_outside scope)) (rows-tick u s.db) in
    elim (Result-cases step.0) [
      | inl (stored, k) ↦
          rw (k, persist_messages) (persist_messages-KeepsOutside e p py scope l step.1 u ∙ kept)
      | inr (x, k) ↦ rw (k, persist_messages) kept
    ]

-- Whatever a run of a session stores, and however it ends, the messages that the history gives for
-- a session of another thread stay the same, also for another agent. It is assumed that no message
-- expires.
pub get_messages-after_run :
    (e : Env) (p : Pipeline) (py : Python) (provider : ContextProvider) (session : Option Session)
    (context_messages : List Message) (state other_state : RunState) (s : StoreState)
    (agent_id thread other_thread : Ident)
    → (provider_scope provider session state).thread_id ≡ some thread
    → other_thread ≢ thread
    → NeverExpires s.db.working
    → get_messages e py agent_id
        (some other_thread)
        other_state
        (after_run e p py provider session context_messages state s).1.db
      ≡ get_messages e py agent_id (some other_thread) other_state s.db
unfolding get_messages after_run history_scope
get_messages-after_run e p py provider session context_messages state other_state s agent_id thread
      other_thread h different fresh =
    let other = history_scope agent_id (some other_thread) other_state in
    let mine = provider_scope provider session state in
    let messages = extract_turn_messages context_messages state in
    ap (λ r. r >>= λ newest_first. ok (readable py (reverse newest_first)))
      (list_all-KeepsOutside e working_memory other mine 1000 0 0 none s.db
        (persist_messages e p py mine messages s).1.db
        (different_threads other mine other_thread thread refl h different) fresh
        (persist_messages-KeepsOutside e p py mine messages s))

-- The text under which a message is stored is read back as a dict with its role and its text, if
-- Python's json reads back what it writes.
pub content_to_message_dict-message_to_content :
    (py : Python) (m : Message)
    → RoundTrips py
    → content_to_message_dict py (message_to_content py m)
      ≡ some (message_dict (message_role py m) (message_text py m))
unfolding content_to_message_dict message_to_content set_default
content_to_message_dict-message_to_content py m h =
    rw (h (object (message_dict (message_role py m) (message_text py m)))) refl
