-- ===== src/Sending.antt =====
-- src/main/send-outcome.ts: what became of a message that was sent.
use material_email.Prelude.{Bool, List, [], ◌∷◌, ◌++◌, length, nat_beq, if◌then◌else◌}
use material_email.Prelude.Text.{Text, text, decimal}

pub record SendResult : Type 0 where
  pub message_id : Text
  pub queued : Bool
  pub accepted : List Text
  pub rejected : List Text

pub data SendDisposition : Type 0 where
  was_queued sent partial was_rejected : SendDisposition

abbrev answered : List Text → List Text → SendDisposition
answered [] rejected = was_rejected
answered (recipient ∷ accepted) [] = sent
answered (recipient ∷ accepted) (other ∷ rejected) = partial

unfoldable pub classify_send_result : SendResult → SendDisposition
classify_send_result result =
    if result.queued then was_queued else answered result.accepted result.rejected

unfoldable pub describe_recipient_outcome : SendResult → Text
unfolding decimal
describe_recipient_outcome result =
    decimal (length result.accepted)
    ++ text " recipient"
    ++ (if nat_beq (length result.accepted) 1 then [] else text "s")
    ++ text " accepted; "
    ++ decimal (length result.rejected)
    ++ text " rejected."
