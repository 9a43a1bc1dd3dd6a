-- ===== src/Counters/Tests.antt =====
-- Runs of the signal counters.
use semestr.Prelude.{◌≡◌, ◌≤◌, refl, arith, some, false, List, [], ◌∷◌}
use semestr.Counters.{
  State, returned, licence_to_kill, Event, parent_step, parent_handler, child_handler,
  child_usr2_handler, run,
}
use semestr.Counters.Counts.{counts}
use semestr.Counters.Replies.{replies}

-- One signal and its answer.
abbrev one_reply : List Event
one_reply =
    parent_step ∷ parent_step ∷ child_handler ∷ parent_handler ∷ parent_step ∷ child_usr2_handler
    ∷ parent_step ∷ []

abbrev after_reply : State
after_reply = record {
  kind = 2;
  sent = 1;
  received_child = 1;
  received_parent = 1;
  child_pending = 0;
  parent_pending = 0;
  child_usr2 = false;
  child_alive = false;
  parent = returned;
}

one_reply_test : run one_reply (licence_to_kill 1 2) ≡ some after_reply
unfolding run licence_to_kill
one_reply_test = refl

-- In type 3 the answer to the first signal ends the `sleep` after which the child is ended.
real_time_test :
    run
      (parent_step ∷ parent_step ∷ parent_step ∷ child_handler ∷ parent_handler ∷ parent_step
        ∷ child_usr2_handler ∷ parent_step ∷ [])
      (licence_to_kill 1 3)
    ≡ some (record after_reply { kind = 3; sent = 2; child_pending = 1 })
unfolding run licence_to_kill
real_time_test = refl

counts_example :
    (after_reply.received_parent ≤ after_reply.received_child)
    × (after_reply.received_child ≤ after_reply.sent)
    × (after_reply.sent ≤ 1)
    × (after_reply.parent ≡ returned → after_reply.sent ≡ 1)
counts_example = counts 1 2 one_reply after_reply (omega arith) one_reply_test

replies_example :
    (after_reply.sent ≡ 1) × (after_reply.received_child ≡ 1) × (after_reply.received_parent ≡ 1)
replies_example = replies 1 one_reply after_reply one_reply_test refl
