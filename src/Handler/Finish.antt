-- ===== src/Handler/Finish.antt =====
-- The `DONE` step of `_process_commands` of src/mtp_cmd_handler.c, where no data are marked as sent.
use cmtp_responder.Base.{◌≡◌, refl, ap, Bool, true, false, not, ◌==◌, ◌&&◌, if◌then◌else◌}
use cmtp_responder.Entity.Code
use cmtp_responder.Handler.{State}
use cmtp_responder.Handler.Answers.{IsUnsent}
use cmtp_responder.Handler.Process.{is_abandoned, restore, finish}

both_false : (a b : Bool) → b ≡ false → (a && b) ≡ false
both_false true b h = h
both_false false b h = refl

abandoned_unsent : (t : State) → IsUnsent t → is_abandoned t ≡ false
unfolding is_abandoned
abandoned_unsent t u =
    let d = t.hdlr.data4_send_obj in
    both_false (t.hdlr.last_opcode == Code.opcode_sendobjectinfo) _ (
      both_false (not (t.hdlr.last_fmt_code == Code.fmt_association)) _ (
        both_false (not (t.hdlr.last_fmt_code == Code.fmt_undef)) _ (
          both_false (not (t.hdlr.usb_cmd.code == Code.opcode_sendobject)) _
            (both_false d.is_valid d.is_data_sent u))))

-- Only the code of the command is recorded.
pub finish_unsent :
    (t : State)
    → IsUnsent t
    → finish t ≡ record t { hdlr = record t.hdlr { last_opcode = t.hdlr.usb_cmd.code } }
unfolding finish
finish_unsent t u =
    ap
      (λ b.
        let t' = (if b then restore t else t) in
        record t' { hdlr = record t'.hdlr { last_opcode = t.hdlr.usb_cmd.code } })
      (abandoned_unsent t u)
