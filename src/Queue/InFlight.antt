-- ===== src/Queue/InFlight.antt =====
-- Every order of steps of deliveries and of the writes beside them (src/main/app-service.ts).
use material_email.Prelude.{
  ◌≡◌, ◌≢◌, refl, sym, subst, true, Option, none, some, List, [], ◌∷◌, arith, find?, contains, All,
  All-map, AllPairs, Bool-cases, inl, inr,
}
use material_email.Prelude.Text.{Text, text_eq, text_beq_iff}
use material_email.Sending.{SendResult, classify_send_result}
use material_email.Queue.Model.{OutboxItem, MailState, done, Transport, ok, err, Ran, Result}
use material_email.Queue.Heads.{require_account, has_outbox_id}
use material_email.Queue.Delivery.{delivered}
use material_email.Queue.Replay.{succeeded}
use material_email.Queue.Commands.{checked, found, outbox_named, cancel_outbox}
use material_email.Queue.Drafts.{finish_sending}
use material_email.Queue.Outbox.{OutboxKeys, delivered-IsDelivered}
use material_email.Queue.Interleaving.{
  Flight, flight_accounts, World, Write, wrote_sending, wrote_cancel, Step, begins, ends, turns,
  writes, Reaches, here, then_step, IsFlying, IsWorld,
}
use material_email.Queue.Begun.{begin_retry-IsBegun}
use material_email.Queue.Flights.{named_found, absent_account}
use material_email.Queue.Worlds.{IsNext, without-IsNext, same-IsNext, ends-IsNext, finish_by-IsNext}

module _ (t : Transport) where
  -- What an operation does after its checks, or nothing.
  checked-IsNext :
      {A B : Type 0} (state : MailState) (flights : List Flight) (r : Result A) (next : A → Ran B)
      → OutboxKeys state.outbox
      → All (IsFlying t state) flights
      → ((a : A) → r ≡ ok a → IsNext t state (next a).state flights)
      → IsNext t state (checked state r next).state flights
  checked-IsNext state flights (ok a) next keys flying h = h a refl
  checked-IsNext state flights (err e) next keys flying h =
      same-IsNext t state state flights keys flying refl refl

  found_item : (o : Option OutboxItem) (x : OutboxItem) → found o ≡ ok x → o ≡ some x
  found_item none x h = absurd (cc)
  found_item (some y) x h = cc

  cancel_outbox-IsNext :
      (state : MailState) (flights : List Flight) (account id : Text)
      → OutboxKeys state.outbox
      → All (IsFlying t state) flights
      → IsNext t state (cancel_outbox (flight_accounts flights) state account id).state flights
  unfolding cancel_outbox
  cancel_outbox-IsNext state flights account id keys flying =
      elim (Bool-cases (contains (flight_accounts flights) account)) [
        | inl running ↦ rw running (same-IsNext t state state flights keys flying refl refl)
        | inr free ↦ rw free (
            checked-IsNext state flights (require_account state account) _ keys flying
              λ stored known.
                checked-IsNext state flights (found (find? (outbox_named account id) state.outbox))
                  _ keys flying
                  λ item there.
                    let (by_id, mine) =
                      named_found account id item state.outbox keys
                        (found_item (find? (outbox_named account id) state.outbox) item there) in
                    let same_id = own_id id item state.outbox by_id in
                    without-IsNext t state _ account item flights keys flying
                      (absent_account account flights free)
                      (subst (λ k. find? (has_outbox_id k) state.outbox ≡ some item) (sym same_id)
                        by_id)
                      mine refl refl)
      ]
    where
      own_id :
          (k : Text) (x : OutboxItem) (l : List OutboxItem)
          → find? (has_outbox_id k) l ≡ some x
          → x.id ≡ k
      own_id k x [] h = absurd (cc)
      own_id k x (y ∷ l) h = elim (Bool-cases (has_outbox_id k y)) [
        | inl is_k ↦
            let same : y ≡ x = ground arith in
            subst (λ z. z.id ≡ k) same ((text_beq_iff y.id k).0 is_k)
        | inr differs ↦ own_id k x l (rw differs at h)
      ]

  Write-IsNext :
      (w : World) (next : MailState) → IsWorld t w → Write w next → IsNext t w.state next w.running
  unfolding finish_sending
  Write-IsNext w next world (wrote_sending draft snapshot outcome fresh now unused e) =
      subst (λ s. IsNext t w.state s w.running) (sym e)
        (finish_by-IsNext t (classify_send_result outcome.answer) w.state draft _ outcome fresh now
          w.running world.keys world.flying unused)
  Write-IsNext w next world (wrote_cancel account id e) =
      subst (λ s. IsNext t w.state s w.running) (sym e)
        (cancel_outbox-IsNext w.state w.running account id world.keys world.flying)

  Step-IsWorld : (w v : World) → IsWorld t w → Step t w v → IsWorld t v
  Step-IsWorld w v world (begins account_id outbox_id flight begun e) =
      let chosen =
        begin_retry-IsBegun t w.state w.running account_id outbox_id flight world.keys begun in
      subst (IsWorld t) (sym e) record {
        keys = subst (λ (s : MailState). OutboxKeys s.outbox) (sym chosen.same) world.keys;
        flying =
            subst (λ s. All (IsFlying t s) (flight ∷ w.running)) (sym chosen.same)
              (chosen.flying, world.flying);
        apart = (absent_account flight.account.id w.running chosen.free, world.apart);
      }
  Step-IsWorld w v world (ends flight others attempt fresh running e) =
      let flying = subst (All (IsFlying t w.state)) running world.flying in
      let apart =
        subst (AllPairs (λ (f : Flight) g. g.account.id ≢ f.account.id)) running world.apart in
      let next =
        ends-IsNext t w.state flight others attempt fresh world.keys flying.0 flying.1 apart.0 in
      subst (IsWorld t) (sym e) record { keys = next.keys; flying = next.flying; apart = apart.1 }
  Step-IsWorld w v world (turns first second others running e) =
      let flying = subst (All (IsFlying t w.state)) running world.flying in
      let apart =
        subst (AllPairs (λ (f : Flight) g. g.account.id ≢ f.account.id)) running world.apart in
      subst (IsWorld t) (sym e) record {
        keys = world.keys;
        flying = (flying.1.0, (flying.0, flying.1.1));
        apart = (((λ p. apart.0.0 (sym p)), apart.1.0), (apart.0.1, apart.1.1));
      }
  Step-IsWorld w v world (writes next write e) =
      let after = Write-IsNext w next world write in
      subst (IsWorld t) (sym e)
        record { keys = after.keys; flying = after.flying; apart = world.apart }

  Reaches-IsWorld : (w v : World) → IsWorld t w → Reaches t w v → IsWorld t v
  Reaches-IsWorld w v world here = world
  Reaches-IsWorld w v world (then_step {v = x} reaches step) =
      Step-IsWorld x v (Reaches-IsWorld w x world reaches) step

-- From a state whose items have identifiers of their own, with no delivery running, in every order of
-- manual retries of any items, which begin a delivery where their checks let them and end it with
-- any answer or failure, messages that are sent or queued under new identifiers, and items that are
-- cancelled: no two deliveries of one account run at a time, and a delivery that the server answers,
-- whatever it answers, finds its item still in the outbox and its account, and succeeds.
pub Reaches-deliveries_succeed :
    (t : Transport) (state : MailState) (v : World) (answer : SendResult) (fresh : Text)
    → OutboxKeys state.outbox
    → Reaches t (record { state = state; running = [] }) v
    → AllPairs (λ (f : Flight) g. g.account.id ≢ f.account.id) v.running
      × All
          (λ (f : Flight).
            succeeded (delivered t v.state f.account f.item fresh (done answer)).result ≡ true)
          v.running
Reaches-deliveries_succeed t state v answer fresh keys reaches =
    let world =
      Reaches-IsWorld t (record { state = state; running = [] }) v
        record { keys = keys; flying = tt; apart = tt } reaches in
    (
      world.apart,
      All-map
          {Q = λ (f : Flight).
            succeeded (delivered t v.state f.account f.item fresh (done answer)).result ≡ true}
          (λ f flying.
            (delivered-IsDelivered t f.account f.account v.state f.item fresh (done answer)
              flying).goes_on)
          v.running world.flying,
    )
