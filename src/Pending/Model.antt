-- ===== src/Pending/Model.antt =====
-- The records of packages/shared/src/types.ts that the store of pending prompts keeps.
use cli_bridge.Common.{
  ℕ, ◌≡◌, ◌↔◌, Bool, true, false, String, Option, List, [], ◌∷◌, arith, Eq, nat_eq, string_eq,
}
use cli_bridge.Services.Packets.{PacketSource, PacketTarget, Transport}

pub data PendingPromptStatus : Type 0 where
  draft previewed confirmed sent failed cancelled : PendingPromptStatus

abbrev pub pending_prompt_status_beq : PendingPromptStatus → PendingPromptStatus → Bool
pending_prompt_status_beq draft draft = true
pending_prompt_status_beq draft _ = false
pending_prompt_status_beq previewed previewed = true
pending_prompt_status_beq previewed _ = false
pending_prompt_status_beq confirmed confirmed = true
pending_prompt_status_beq confirmed _ = false
pending_prompt_status_beq sent sent = true
pending_prompt_status_beq sent _ = false
pending_prompt_status_beq failed failed = true
pending_prompt_status_beq failed _ = false
pending_prompt_status_beq cancelled cancelled = true
pending_prompt_status_beq cancelled _ = false

pub pending_prompt_status_beq_iff :
    (a b : PendingPromptStatus) → (pending_prompt_status_beq a b ≡ true) ↔ (a ≡ b)
pending_prompt_status_beq_iff a b = ground arith

instance abbrev pub pending_prompt_status_eq : Eq PendingPromptStatus
pending_prompt_status_eq = record {
  same = pending_prompt_status_beq;
  same_iff = pending_prompt_status_beq_iff;
}

-- The status is always `ready-to-copy`.
pub record ClipboardHandoff : Type 0 where
  pub fallback_reason : String
  pub checklist : List String
  pub created_at : ℕ

pub record PendingPrompt : Type 0 where
  pub id : String
  pub session_id : String
  pub packet_id : String
  pub prompt : String
  pub project_id : Option String
  pub status : PendingPromptStatus
  pub transport : Transport
  pub clipboard_handoff : Option ClipboardHandoff
  pub created_at : ℕ
  pub updated_at : ℕ
  pub confirmed_at : Option ℕ
  pub sent_at : Option ℕ
  pub cancelled_at : Option ℕ
  pub failed_at : Option ℕ
  pub failure_reason : Option String

-- `AgentDeliveryResult`, less the transport and the text, which the store passes on unread.
pub record Delivery : Type 0 where
  pub ok : Bool
  pub failure_reason : Option String

abbrev pub manual_paste_checklist : List String
manual_paste_checklist =
    "Copy the pending prompt text." ∷ "Paste it into the managed Codex session."
    ∷ "Submit manually after reviewing the prompt."
    ∷ "Record success or failure in the bridge audit trail." ∷ []

abbrev pub source_text : PacketSource → String
source_text PacketSource.codex = "codex"
source_text PacketSource.chatgpt_web = "chatgpt-web"
source_text PacketSource.user_selection = "user-selection"
source_text PacketSource.clipboard = "clipboard"

abbrev pub target_text : PacketTarget → String
target_text PacketTarget.codex = "codex"
target_text PacketTarget.chatgpt_web = "chatgpt-web"
target_text PacketTarget.clipboard = "clipboard"

abbrev pub transport_text : Transport → String
transport_text Transport.managed_pty = "managed-pty"
transport_text Transport.clipboard = "clipboard"
