-- ===== src/Pending/Overlaps.antt =====
-- A prompt that is cancelled or sent again while a send waits for the adapter.
use cli_bridge.Common.{
  ℕ, ◌≡◌, refl, true, false, String, none, some, arith, ◌==◌, nat_eq, string_eq, get, get-set_self,
}
use cli_bridge.Pending.Model.{
  confirmed, sent, cancelled, pending_prompt_status_eq, PendingPrompt, Delivery,
}
use cli_bridge.Pending.Store.{
  Store, lookup, put, confirm, hand_off, cancel, get_prompt, is_closed, deref,
}
use cli_bridge.Pending.Sending.{Flight, SendResult, ended, flies, begin_send, finish_send}
use mathlib.Core.Path.{subst}

-- A prompt that the map leads to.
abbrev pub Holds : String → ℕ → PendingPrompt → Store → Type 0
Holds id at p s = (get id s.prompts ≡ some at) × (s.objects at ≡ some p)

Holds-lookup :
    (id : String) (at : ℕ) (p : PendingPrompt) (s : Store)
    → Holds id at p s
    → lookup id s ≡ some (at, p)
unfolding lookup
Holds-lookup id at p s h = rw (h.0, lookup, h.1, deref) refl

put-Holds : (at : ℕ) (p : PendingPrompt) (s : Store) → Holds p.id s.allocated p (put at p s)
unfolding put
put-Holds at p s = (get-set_self p.id s.allocated s.prompts, ground arith)

-- A send begins exactly when the prompt is there and confirmed.
begin_send_confirmed :
    (id : String) (at : ℕ) (p : PendingPrompt) (now : ℕ) (s : Store)
    → Holds id at p s
    → p.status ≡ confirmed
    → begin_send id now s ≡ flies (record { held = at; text = p.prompt; now = now })
unfolding begin_send
begin_send_confirmed id at p now s h c =
    let b : (p.status == confirmed) ≡ true = ground arith in
    rw (Holds-lookup id at p s h, b, begin_send) refl

-- The object that a put writes to, when it is not new.
put_held : (at : ℕ) (p : PendingPrompt) (s : Store) → (put at p s).objects at ≡ some p
unfolding put
put_held at p s = ground arith

Holds-get_prompt :
    (id : String) (at : ℕ) (p : PendingPrompt) (s : Store)
    → Holds id at p s
    → get_prompt id s ≡ some p
unfolding get_prompt
Holds-get_prompt id at p s h = rw (Holds-lookup id at p s h, get_prompt) refl

abbrev cancelled_prompt : PendingPrompt → ℕ → PendingPrompt
cancelled_prompt p now = record p { status = cancelled; cancelled_at = some now; updated_at = now }

cancel_held :
    (id : String) (at : ℕ) (p : PendingPrompt) (now : ℕ) (s : Store)
    → Holds id at p s
    → p.status ≡ confirmed
    → (cancel id now s).1.objects at ≡ some (cancelled_prompt p now)
unfolding cancel
cancel_held id at p now s h c =
    let b : (p.status == sent) ≡ false = ground arith in
    rw (Holds-lookup id at p s h, b, cancel) (put_held at (cancelled_prompt p now) s)

finish_send-Holds :
    (adapter : String) (delivery : Delivery) (f : Flight) (p : PendingPrompt) (s : Store)
    → delivery.ok ≡ true
    → s.objects f.held ≡ some p
    → Holds p.id s.allocated
        (record p { status = sent; sent_at = some f.now; updated_at = f.now })
        (finish_send adapter delivery f s).1
unfolding finish_send
finish_send-Holds adapter delivery f p s ok here =
    rw (here, ok, finish_send)
      (put-Holds f.held (record p { status = sent; sent_at = some f.now; updated_at = f.now }) s)

-- A confirmed prompt that is cancelled while its send waits for the adapter is sent all the same: the
-- send has begun with the prompt's text, and when the adapter reports success the store holds the prompt
-- as sent, with the time of its cancellation in it.
pub cancel-finish_send :
    (adapter : String) (delivery : Delivery) (id : String) (at : ℕ) (p : PendingPrompt)
    (begun stopped : ℕ) (s : Store)
    → Holds id at p s
    → p.id ≡ id
    → p.status ≡ confirmed
    → delivery.ok ≡ true
    → let f : Flight = record { held = at; text = p.prompt; now = begun } in
      (begin_send id begun s ≡ flies f)
      × (get_prompt id (finish_send adapter delivery f (cancel id stopped s).1).1
          ≡ some (record p {
            status = sent;
            cancelled_at = some stopped;
            sent_at = some begun;
            updated_at = begun;
          }))
cancel-finish_send adapter delivery id at p begun stopped s h i c ok =
    let f : Flight = record { held = at; text = p.prompt; now = begun } in
    let s' : Store = (cancel id stopped s).1 in
    let held = cancel_held id at p stopped s h c in
    (
      begin_send_confirmed id at p begun s h c,
      subst
          (λ j.
            get_prompt j (finish_send adapter delivery f s').1
            ≡ some (record p {
              status = sent;
              cancelled_at = some stopped;
              sent_at = some begun;
              updated_at = begun;
            }))
          i
          (Holds-get_prompt p.id s'.allocated _ (finish_send adapter delivery f s').1
            (finish_send-Holds adapter delivery f (cancelled_prompt p stopped) s' ok held)),
    )

-- The prompt is sent, and at the given time nothing but a preview touches it and no send of it begins.
abbrev pub Closed : String → ℕ → String → Store → Type 0
Closed id now reason s =
    (p : PendingPrompt) × (get_prompt id s ≡ some p)
    × (p.status ≡ sent)
    × (confirm id now s ≡ (none, s))
    × (cancel id now s ≡ (none, s))
    × ((hand_off id reason now s).1 ≡ s)
    × ((r : SendResult) × (begin_send id now s ≡ ended r))

sent-Closed :
    (id reason : String) (at now : ℕ) (p : PendingPrompt) (s : Store)
    → Holds id at p s
    → p.status ≡ sent
    → Closed id now reason s
unfolding confirm cancel hand_off begin_send
sent-Closed id reason at now p s h c =
    let e = Holds-lookup id at p s h in
    let closed : is_closed p.status ≡ true = ground arith in
    let gone : (p.status == sent) ≡ true = ground arith in
    let used : (p.status == confirmed) ≡ false = ground arith in
    (
      p,
      Holds-get_prompt id at p s h,
      c,
      rw (e, closed, confirm) refl,
      rw (e, gone, cancel) refl,
      rw (e, used, hand_off) refl,
      (
        record {
          ok = false;
          prompt = p;
          clipboard_fallback = none;
          failure_reason = some "pending-prompt-not-confirmed";
        },
        rw (e, used, begin_send) refl,
      ),
    )

-- A delivery that succeeds closes the prompt: the store holds it as sent, and then confirming,
-- cancelling and handing it to the clipboard change nothing, and no send of it begins, at any time.
pub finish_send-Closed :
    (adapter reason : String) (delivery : Delivery) (f : Flight) (p : PendingPrompt) (now : ℕ)
    (s : Store)
    → s.objects f.held ≡ some p
    → delivery.ok ≡ true
    → Closed p.id now reason (finish_send adapter delivery f s).1
finish_send-Closed adapter reason delivery f p now s here ok =
    sent-Closed p.id reason s.allocated now _ (finish_send adapter delivery f s).1
      (finish_send-Holds adapter delivery f p s ok here) refl
