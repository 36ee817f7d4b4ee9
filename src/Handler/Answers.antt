-- ===== src/Handler/Answers.antt =====
-- What src/mtp_cmd_handler.c sends for a command: the responses among it.
use cmtp_responder.Base.{
  ℕ, ◌≡◌, refl, ◌∙◌, ap, ◌⊎◌, inl, inr, Bool, true, false, Option, none, some, List, [], ◌∷◌,
  if◌then◌else◌, arith,
}
use cmtp_responder.Container.Kind
use cmtp_responder.Container.{CmdContainer, resp_container_init, add_param_resp_container}
use cmtp_responder.Entity.Code
use cmtp_responder.Entity.Device.{Device}
use cmtp_responder.Handler.{
  World, State, DataSet, Phase, Sent, set_phase, tick, emit, send_event, zero_blk, send_response,
  send_response_code, send_data_container, after_send, send_data_set,
}

-- The responses of a trace, the latest first.
unfoldable pub answers : List Sent → List CmdContainer
answers [] = []
answers (Sent.reply blk ∷ es) = blk ∷ answers es
answers (Sent.packet bytes ∷ es) = answers es
answers (Sent.event e ∷ es) = answers es

-- The data of an announced object are not marked as sent.
abbrev pub IsUnsent : State → Type 0
IsUnsent s = s.hdlr.data4_send_obj.is_data_sent ≡ false

-- No response since, and the same command. A mark that is not there does not appear.
pub record Quiet (s t : State) : Type 0 where
  pub same_answers : answers t.sent ≡ answers s.sent
  pub same_cmd : t.hdlr.usb_cmd ≡ s.hdlr.usb_cmd
  pub unsent : IsUnsent s → IsUnsent t

-- One response since: a response block with the transaction of the command, and the phase is idle.
pub record Responded (s t : State) : Type 0 where
  pub blk : CmdContainer
  pub told : answers t.sent ≡ blk ∷ answers s.sent
  pub type_eq : blk.header.type ≡ Kind.resp_blk
  pub tid_eq : blk.header.tid ≡ s.hdlr.usb_cmd.header.tid
  pub phase_eq : t.phase ≡ Phase.idle
  pub unsent : IsUnsent s → IsUnsent t

-- No response since: the handler waits for data, or it is not ready, since the host took its transfer
-- back or the data set of an object was not received.
pub record Silent (s t : State) : Type 0 where
  pub same_answers : answers t.sent ≡ answers s.sent
  pub phase_eq : (t.phase ≡ Phase.dataout) ⊎ (t.phase ≡ Phase.notready)
  pub unsent : IsUnsent s → IsUnsent t

abbrev pub Answered : State → State → Type 0
Answered s t = Responded s t ⊎ Silent s t

pub Quiet-refl : (s : State) → Quiet s s
Quiet-refl s = record { same_answers = refl; same_cmd = refl; unsent = λ u. u }

pub Quiet-trans : {s t u : State} → Quiet s t → Quiet t u → Quiet s u
Quiet-trans p q = record {
  same_answers = q.same_answers ∙ p.same_answers;
  same_cmd = q.same_cmd ∙ p.same_cmd;
  unsent = λ u. q.unsent (p.unsent u);
}

-- The state that comes with a result.
pub if-Quiet {ℓ} :
    {A : Type ℓ} (s : State) (b : Bool) (x y : State × A)
    → Quiet s x.0
    → Quiet s y.0
    → Quiet s (if b then x else y).0
if-Quiet s true x y p q = p
if-Quiet s false x y p q = q

pub if-Quiet_state :
    (s : State) (b : Bool) (x y : State) → Quiet s x → Quiet s y → Quiet s (if b then x else y)
if-Quiet_state s true x y p q = p
if-Quiet_state s false x y p q = q

pub if-Answered :
    (s : State) (b : Bool) {x y : State}
    → Answered s x
    → Answered s y
    → Answered s (if b then x else y)
if-Answered s true p q = p
if-Answered s false p q = q

-- A response block keeps its type and transaction whatever its parameters.
add_param-type :
    (c : CmdContainer) (n : ℕ) (params : Option (List ℕ))
    → ((add_param_resp_container c n params).0.header.type ≡ c.header.type)
      × ((add_param_resp_container c n params).0.header.tid ≡ c.header.tid)
unfolding add_param_resp_container
add_param-type c n none = ground arith
add_param-type c n (some params) = ground arith

pub send_response-Responded :
    (s t : State) (resp n : ℕ) (params : Option (List ℕ))
    → Quiet s t
    → Responded s (send_response resp n params t)
unfolding send_response set_phase tick emit answers resp_container_init
send_response-Responded s t resp n params q =
    let start = resp_container_init zero_blk resp t.hdlr.usb_cmd.tid in
    let kept = add_param-type start n params in
    record {
      blk = (add_param_resp_container start n params).0;
      told = ap (λ l. (add_param_resp_container start n params).0 ∷ l) q.same_answers;
      type_eq = kept.0;
      tid_eq = kept.1 ∙ ap (λ c. c.header.tid) q.same_cmd;
      phase_eq = refl;
      unsent = q.unsent;
    }

pub code-Responded : (s t : State) (resp : ℕ) → Quiet s t → Responded s (send_response_code resp t)
unfolding send_response_code
code-Responded s t resp q = send_response-Responded s t resp 0 none q

-- A response to the command at hand.
pub code-Answered : (s t : State) (resp : ℕ) → Quiet s t → Answered s (send_response_code resp t)
code-Answered s t resp q = inl (code-Responded s t resp q)

pub set_phase-Quiet : (s : State) (p : Phase) → Quiet s (set_phase p s)
unfolding set_phase
set_phase-Quiet s p = record { same_answers = refl; same_cmd = refl; unsent = λ u. u }

pub tick-Quiet : (s : State) → Quiet s (tick s)
unfolding tick
tick-Quiet s = record { same_answers = refl; same_cmd = refl; unsent = λ u. u }

pub device-Quiet : (s : State) (d : Device) → Quiet s (record s { device = d })
device-Quiet s d = record { same_answers = refl; same_cmd = refl; unsent = λ u. u }

pub op_state-Quiet : (s : State) (n : ℕ) → Quiet s (record s { mtp_op_state = n })
op_state-Quiet s n = record { same_answers = refl; same_cmd = refl; unsent = λ u. u }

pub send_event-Quiet : (s : State) (e : ℕ) → Quiet s (send_event e s)
unfolding send_event emit answers
send_event-Quiet s e = record { same_answers = refl; same_cmd = refl; unsent = λ u. u }

pub packet-Quiet : (s : State) (bytes : List ℕ) → Quiet s (emit (Sent.packet bytes) s)
unfolding emit answers
packet-Quiet s bytes = record { same_answers = refl; same_cmd = refl; unsent = λ u. u }

pub notready-Answered : (s t : State) → Quiet s t → Answered s (set_phase Phase.notready t)
unfolding set_phase
notready-Answered s t q =
    inr (record { same_answers = q.same_answers; phase_eq = inr refl; unsent = q.unsent })

pub dataout-Answered : (s t : State) → Quiet s t → Answered s (set_phase Phase.dataout t)
unfolding set_phase
dataout-Answered s t q =
    inr (record { same_answers = q.same_answers; phase_eq = inl refl; unsent = q.unsent })

pub after_send-Answered : (s : State) (r : State × Bool) → Quiet s r.0 → Answered s (after_send r)
unfolding after_send
after_send-Answered s (t, true) q = code-Answered s t Code.response_ok q
after_send-Answered s (t, false) q = notready-Answered s t q

pub send_data_container-Quiet :
    (w : World) (blk : List ℕ) (s : State) → Quiet s (send_data_container w blk s).0
unfolding send_data_container
send_data_container-Quiet w blk s =
    Quiet-trans (packet-Quiet s blk) (tick-Quiet (emit (Sent.packet blk) s))

-- Data in its phase.
pub sent_block-Quiet :
    (w : World) (blk : List ℕ) (s : State)
    → Quiet s (send_data_container w blk (set_phase Phase.datain s)).0
sent_block-Quiet w blk s =
    Quiet-trans (set_phase-Quiet s Phase.datain)
      (send_data_container-Quiet w blk (set_phase Phase.datain s))

pub send_data_set-Answered :
    (w : World) (d : DataSet) (s t : State) → Quiet s t → Answered s (send_data_set w d t)
unfolding send_data_set
send_data_set-Answered w d s t q =
    if-Answered s _ (after_send-Answered s _ (Quiet-trans q (sent_block-Quiet w _ t)))
      (code-Answered s t Code.response_gen_error q)
