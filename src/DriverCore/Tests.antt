-- ===== src/DriverCore/Tests.antt =====
-- DriverCore/Driver_Core.c: the theorems at a write with two located requests of two replicas each.
use dms_blkdev.Base.{
  ℕ, ◌-◌, ◌≡◌, refl, ◌≢◌, false, none, some, List, [], ◌∷◌, arith, ltb, ◌==◌, if◌then◌else◌, ◌&&◌,
}
use dms_blkdev.Allocation.{WriteOp}
use dms_blkdev.Dio.{alloc_write}
use dms_blkdev.DList.Nodes.{IsWf}
use dms_blkdev.IoRequest.{IoRequest, Pending, success}
use dms_blkdev.DriverCore.{
  Ack, io_exception, wmem_ack, wdisk_ack, ack_word, Lr, DmsMetadata, DatanodeTag, Act, failed,
  act_cnamenode, commit_range, volume_io_commiter,
}
use dms_blkdev.DriverCore.Acks.{run_acks, Answered, run_acks-Answered}
use dms_blkdev.DriverCore.Completion.{CountsWaiting, waiting_lrs, volume_io_commiter-completes}
use dms_blkdev.DriverCore.Outcome.{commit_range-first_answer}

abbrev ior : IoRequest
ior = record {
  rid = 1;
  diolist = record { nodes = record { addr = 10; user_data = 100 } ∷ []; next_node = none };
  result = 1;
  ref_cnt = 1;
  ended = [];
}

ior-IsWf : IsWf ior.diolist
ior-IsWf = record { distinct = (refl, tt); cursor = tt }

-- The IO 100 with the blocks 4 and 5.
abbrev pending : Pending
pending = record {
  dio = 100;
  lb_list = record {
    blocks =
        record { addr = 1; lbid = 4; bio = 1; vec_idx = 0 }
        ∷ record { addr = 2; lbid = 5; bio = 1; vec_idx = 1 }
        ∷ [];
    next_node = none;
  };
  result = 1;
}

abbrev lr_of : ℕ → ℕ → Lr
lr_of slbid n = record {
  slbid = slbid;
  nr_lbids = 1;
  wmem_ack = n;
  wdisk_ack = n;
  dn_results = 0 ∷ 0 ∷ [];
  committed_user = false;
}

abbrev dmeta_of : ℕ → DmsMetadata
dmeta_of n = record {
  op = alloc_write WriteOp.overwrite;
  lrs = lr_of 4 n ∷ lr_of 5 n ∷ [];
  pdio = some pending;
  ior = ior;
  nr_waiting_lrs = 2;
}

abbrev acks : List (ℕ × Ack)
acks = (0, wmem_ack) ∷ (1, io_exception) ∷ (0, wdisk_ack) ∷ []

run_acks-Answered_example :
    (dmeta' : DmsMetadata) × (done_lrs : ℕ) × (run_acks 0 acks (dmeta_of 2)
      ≡ some (dmeta', done_lrs))
    × Answered 0 acks (lr_of 4 2) (dmeta_of 2) dmeta' done_lrs
run_acks-Answered_example =
    run_acks-Answered acks 0 (lr_of 4 2) (dmeta_of 2) refl (omega arith) (omega arith)
      (omega arith, (omega arith, (omega arith, tt))) (omega arith) (omega arith) (λ _. omega arith)

abbrev ddt : DatanodeTag
ddt = record {
  payload_tags = record {
    nodes = record { addr = 30; user_data = 1 } ∷ record { addr = 31; user_data = 2 } ∷ [];
    next_node = none;
  };
  tag_at = λ k. record { lr = k - 1; dn_index = 0 };
}

volume_io_commiter-completes_example :
    (ddt' : DatanodeTag) × (dmeta' : DmsMetadata) × (act : Act) × (volume_io_commiter wdisk_ack ddt
        (dmeta_of 1)
      ≡ some (ddt', dmeta', act))
    × CountsWaiting dmeta'
    × (act ≡ (
        if ltb 0 (waiting_lrs (dmeta_of 1).lrs) && (waiting_lrs dmeta'.lrs == 0)
        then act_cnamenode
        else failed))
volume_io_commiter-completes_example =
    volume_io_commiter-completes wdisk_ack ddt (dmeta_of 1)
      (record {
        words = ((omega arith, omega arith), ((omega arith, omega arith), tt));
        counted = refl;
        few = omega arith;
      })
      (record {
        wf = record { distinct = (refl, (refl, tt)); cursor = tt };
        some_tag = ((λ e. omega (arith, e)), ((λ e. omega (arith, e)), tt));
        awaited = (
          record {
            lr = lr_of 4 1;
            here = refl;
            known = omega arith;
            awaits = (omega arith, omega arith);
          },
          (
            record {
              lr = lr_of 5 1;
              here = refl;
              known = omega arith;
              awaits = (omega arith, omega arith);
            },
            tt,
          ),
        );
        distinct = (((λ e. omega (arith, e)), tt), (tt, tt));
      })

abbrev pending_left : Pending
pending_left = record pending {
  lb_list = record {
    blocks = record { addr = 2; lbid = 5; bio = 1; vec_idx = 1 } ∷ [];
    next_node = none;
  };
  result = 103;
}

first_left-eq : commit_range 4 1 (ack_word wdisk_ack) (some pending) ior ≡ (some pending_left, ior)
unfolding commit_range ack_word
first_left-eq = refl

abbrev ior_ended : IoRequest
ior_ended = record ior {
  diolist = record { nodes = []; next_node = none };
  result = 103;
  ended = 103 ∷ [];
}

second-eq : commit_range 5 1 (ack_word io_exception) (some pending_left) ior ≡ (none, ior_ended)
unfolding commit_range ack_word
second-eq = refl

wdisk-not_success : ack_word wdisk_ack ≢ success
unfolding ack_word
wdisk-not_success e = omega (arith, e)

commit_range-first_answer_example : ior_ended.result ≡ ack_word wdisk_ack
commit_range-first_answer_example =
    commit_range-first_answer wdisk_ack io_exception 4 1 5 1 pending pending_left ior ior ior_ended
      wdisk-not_success refl refl ior-IsWf (λ e. omega (arith, e)) refl first_left-eq second-eq
