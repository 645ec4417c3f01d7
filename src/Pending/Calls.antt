-- ===== src/Pending/Calls.antt =====
-- Histories of the store of pending prompts in which sends overlap with other operations.
use cli_bridge.Common.{ℕ, zero, suc, String, Option, none, some, List, [], ◌∷◌, nat_eq, string_eq}
use cli_bridge.Services.Packets.{Services}
use cli_bridge.Services.Redaction.{redact_sensitive_content, Rule}
use cli_bridge.Pending.Model.{pending_prompt_status_eq, Delivery}
use cli_bridge.Pending.Store.{Store, CreateInput, create, preview, confirm, hand_off, cancel}
use cli_bridge.Pending.Sending.{Flight, Begun, ended, flies, begin_send, finish_send}

-- The store, the sends that wait for the adapter, and what the adapter was given, the last first: the
-- identifier that the caller named and the text.
pub record Server : Type 0 where
  pub store : Store
  pub flights : List Flight
  pub handed : List (String × String)

pub data Call : Type 0 where
  creates : CreateInput → Call
  previews confirms begins cancels : String → Call
  hands_off : String → String → Call
  -- The delivery of the waiting send at a place of the list comes back, from the adapter named.
  lands : ℕ → String → Delivery → Call

unfoldable pub launch : String → Begun → Server → Server
launch id (ended r) v = v
launch id (flies f) v = record v { flights = f ∷ v.flights; handed = (id, f.text) ∷ v.handed }

abbrev pub flight_at : ℕ → List Flight → Option Flight
flight_at n [] = none
flight_at zero (f ∷ fs) = some f
flight_at (suc n) (f ∷ fs) = flight_at n fs

abbrev pub remove_at : ℕ → List Flight → List Flight
remove_at n [] = []
remove_at zero (f ∷ fs) = fs
remove_at (suc n) (f ∷ fs) = f ∷ remove_at n fs

unfoldable pub land : ℕ → String → Delivery → Server → Server
land n adapter delivery v = elim (flight_at n v.flights) [
  | none ↦ v
  | some f ↦ record v {
    store = (finish_send adapter delivery f v.store).1;
    flights = remove_at n v.flights;
  }
]

unfoldable pub step : Server → ℕ × Call → Server
unfolding launch land
step v (now, creates input) = record v { store = (create input now v.store).1 }
step v (now, previews id) = record v { store = (preview id now v.store).1 }
step v (now, confirms id) = record v { store = (confirm id now v.store).1 }
step v (now, begins id) = launch id (begin_send id now v.store) v
step v (now, cancels id) = record v { store = (cancel id now v.store).1 }
step v (now, hands_off id reason) = record v { store = (hand_off id reason now v.store).1 }
step v (now, lands n adapter delivery) = land n adapter delivery v

unfoldable pub run : Server → List (ℕ × Call) → Server
unfolding step
run v [] = v
run v (c ∷ cs) = run (step v c) cs

-- The identifiers that a call asks to confirm, and those of a history, on top of the given ones.
abbrev pub consents_of : Call → List String → List String
consents_of (confirms id) ids = id ∷ ids
consents_of _ ids = ids

abbrev pub consents : List (ℕ × Call) → List String → List String
consents [] before = before
consents (c ∷ cs) before = consents cs (consents_of c.1 before)

-- The redacted texts of what a call creates, and those of a history.
abbrev pub redacted_text : List Rule → String → String
redacted_text rules text = (redact_sensitive_content rules text).processed_content

abbrev pub texts_of : List Rule → Call → List String → List String
texts_of rules (creates input) ts = redacted_text rules input.prompt ∷ ts
texts_of rules _ ts = ts

abbrev pub texts : List Rule → List (ℕ × Call) → List String → List String
texts rules [] before = before
texts rules (c ∷ cs) before = texts rules cs (texts_of rules c.1 before)

-- A server before any call.
abbrev pub empty : Services → Server
empty services = record {
  store = record { services = services; objects = λ j. none; allocated = 0; prompts = [] };
  flights = [];
  handed = [];
}
