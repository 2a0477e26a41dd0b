-- ===== src/DriverCore/Completion.antt =====
-- DriverCore/Driver_Core.c, __VolumeIO_Commiter: the count of located requests that wait, and the answer
-- at which the metadata goes back to the namenode.
use dms_blkdev.Base.{
  ℕ, zero, suc, ◌+◌, ◌-◌, ◌^◌, ◌≤◌, ◌<◌, ◌≡◌, ◌≢◌, refl, sym, ◌∙◌, ap, Bool, true, false, ◌||◌,
  ◌&&◌, none, some, List, [], ◌∷◌, map, arith, ◌==◌, ltb, if◌then◌else◌, length, get_elem?, set,
  All, lt→ltb,
}
use dms_blkdev.DList.{Node}
use dms_blkdev.DList.Nodes.{IsWf}
use dms_blkdev.DList.Iterate.{NonNull, iterate-reset}
use dms_blkdev.Dio.{Op}
use dms_blkdev.DriverCore.{
  Ack, Act, failed, act_cnamenode, Lr, DmsMetadata, PayloadTag, DatanodeTag, handle_tags, tagged,
  walked, default_commit_to_user_policy, default_commit_to_namenode_policy, commited,
  volume_io_commiter,
}
use dms_blkdev.DriverCore.Replicas.{
  AckKind, kind, is_disk, one_if, Awaits, dec_mod, dec_is_zero, sub_zero,
}
use dms_blkdev.DriverCore.Answers.{after, handle_tag-OneAnswer}

abbrev is_waiting : Lr → Bool
is_waiting lr = ltb 0 lr.wdisk_ack

-- The located requests that wait for an answer on disk.
abbrev pub waiting_lrs : List Lr → ℕ
waiting_lrs [] = 0
waiting_lrs (lr ∷ lrs) = one_if (is_waiting lr) + waiting_lrs lrs

-- The counters of an `atomic_t` are 32-bit words.
abbrev pub IsWord : Lr → Type 0
IsWord lr = (lr.wmem_ack < 2 ^ 32) × (lr.wdisk_ack < 2 ^ 32)

-- The located request and the location of a tag are there, and the request waits for the answer.
pub record AwaitedTag (op : Op) (k : AckKind) (lrs : List Lr) (tag : PayloadTag) : Type 0 where
  pub lr : Lr
  pub here : get_elem? lrs tag.lr ≡ some lr
  pub known : tag.dn_index < length lr.dn_results
  pub awaits : Awaits op k lr

abbrev pub DistinctTags : List PayloadTag → Type 0
DistinctTags [] = Unit
DistinctTags (tag ∷ tags) = All (λ t. t.lr ≢ tag.lr) tags × DistinctTags tags

waiting-set :
    (lrs : List Lr) (i : ℕ) (lr lr' : Lr)
    → get_elem? lrs i ≡ some lr
    → waiting_lrs (set lrs i lr') + one_if (is_waiting lr)
      ≡ waiting_lrs lrs + one_if (is_waiting lr')
waiting-set [] i lr lr' h = absurd (cc h)
waiting-set (x ∷ lrs) zero lr lr' h = ground arith
waiting-set (x ∷ lrs) (suc i) lr lr' h = ground (arith, waiting-set lrs i lr lr' h)

get-set_ne :
    (lrs : List Lr) (i j : ℕ) (lr : Lr) → i ≢ j → get_elem? (set lrs i lr) j ≡ get_elem? lrs j
get-set_ne [] i j lr ne = refl
get-set_ne (x ∷ lrs) zero zero lr ne = absurd (ne refl)
get-set_ne (x ∷ lrs) zero (suc j) lr ne = refl
get-set_ne (x ∷ lrs) (suc i) zero lr ne = refl
get-set_ne (x ∷ lrs) (suc i) (suc j) lr ne = get-set_ne lrs i j lr (λ e. ne (ap suc e))

IsWord-set :
    (lrs : List Lr) (i : ℕ) (lr : Lr) → All IsWord lrs → IsWord lr → All IsWord (set lrs i lr)
IsWord-set [] i lr h w = tt
IsWord-set (x ∷ lrs) zero lr h w = (w, h.1)
IsWord-set (x ∷ lrs) (suc i) lr h w = (h.0, IsWord-set lrs i lr h.1 w)

some-injective : {x y : Lr} → some x ≡ some y → x ≡ y
some-injective e = cc e

IsWord-get :
    (lrs : List Lr) (i : ℕ) (lr : Lr) → All IsWord lrs → get_elem? lrs i ≡ some lr → IsWord lr
IsWord-get [] i lr h g = absurd (cc g)
IsWord-get (x ∷ lrs) zero lr h g = rw (← some-injective g) h.0
IsWord-get (x ∷ lrs) (suc i) lr h g = IsWord-get lrs i lr h.1 g

still_awaited :
    (op : Op) (k : AckKind) (lrs : List Lr) (i : ℕ) (lr : Lr) (tags : List PayloadTag)
    → All (AwaitedTag op k lrs) tags
    → All (λ t. t.lr ≢ i) tags
    → All (AwaitedTag op k (set lrs i lr)) tags
still_awaited op k lrs i lr [] h d = tt
still_awaited op k lrs i lr (t ∷ tags) h d = (
  record {
    lr = h.0.lr;
    here = get-set_ne lrs i t.lr lr (λ e. d.0 (sym e)) ∙ h.0.here;
    known = h.0.known;
    awaits = h.0.awaits;
  },
  still_awaited op k lrs i lr tags h.1 d.1,
)

waiting_one :
    (x f : Bool) (d d1 w w1 : ℕ)
    → one_if x ≤ d
    → d1 ≡ d - one_if x
    → f ≡ (x && (d == 1))
    → w1 + one_if (ltb 0 d) ≡ w + one_if (ltb 0 d1)
    → w ≡ w1 + one_if f
waiting_one true f d d1 w w1 h e ef ew = ground arith
waiting_one false f d d1 w w1 h e ef ew = ground arith

-- What the answer of one datanode does to the requests that its tags name.
record Handled (dmeta dmeta' : DmsMetadata) (done_lrs : ℕ) : Type 0 where
  pub words : All IsWord dmeta'.lrs
  pub count : waiting_lrs dmeta.lrs ≡ waiting_lrs dmeta'.lrs + done_lrs
  pub nr : dmeta'.nr_waiting_lrs ≡ dmeta.nr_waiting_lrs

count_one :
    (f : Bool) (n w w1 w' : ℕ) → w ≡ w1 + one_if f → w1 ≡ w' + n → w ≡ w' + (if f then suc n else n)
count_one true n w w1 w' h e = omega arith
count_one false n w w1 w' h e = omega arith

handle_tags-Handled :
    (ack : Ack) (tags : List PayloadTag) (dmeta : DmsMetadata)
    → All IsWord dmeta.lrs
    → All (AwaitedTag dmeta.op (kind ack) dmeta.lrs) tags
    → DistinctTags tags
    → (dmeta' : DmsMetadata) × (done_lrs : ℕ) × (handle_tags ack tags dmeta
        ≡ some (dmeta', done_lrs))
      × Handled dmeta dmeta' done_lrs
unfolding handle_tags
handle_tags-Handled ack [] dmeta w h d =
    (dmeta, 0, refl, record { words = w; count = omega arith; nr = refl })
handle_tags-Handled ack (tag ∷ tags) dmeta w h d =
    let t = h.0 in
    let (fm, fd) = IsWord-get dmeta.lrs tag.lr t.lr w t.here in
    let (lr1, c, f, handles, s) =
      handle_tag-OneAnswer tag.lr tag.dn_index ack t.lr dmeta t.here t.known fm fd t.awaits in
    let lr2 = record lr1 { committed_user = c || lr1.committed_user } in
    let (dmeta', n, ran, r) =
      handle_tags-Handled ack tags (after c tag.lr lr1 ack dmeta)
        (IsWord-set dmeta.lrs tag.lr lr2 w (omega (arith, s.mem), omega (arith, s.disk)))
        (still_awaited dmeta.op (kind ack) dmeta.lrs tag.lr lr2 tags h.1 d.0) d.1 in
    let one =
      waiting_one (is_disk dmeta.op (kind ack)) f t.lr.wdisk_ack lr1.wdisk_ack
        (waiting_lrs dmeta.lrs) (waiting_lrs (set dmeta.lrs tag.lr lr2)) t.awaits.1 s.disk s.done
        (waiting-set dmeta.lrs tag.lr t.lr lr2 t.here) in
    (
      dmeta',
      (if f then suc n else n),
      rw (handles, ran) refl,
      record { words = r.words; count = count_one f n _ _ _ one r.count; nr = r.nr },
    )

act-last :
    (n nr : ℕ) (act : Act)
    → suc n ≤ nr
    → (if ltb 0 n && ((nr - 1) == n)
        then act_cnamenode
        else (if nr == 1 then act_cnamenode else act))
      ≡ (if nr == suc n then act_cnamenode else act)
act-last zero nr act h = ground arith
act-last (suc n) nr act h = ground arith

sub_suc : (nr n : ℕ) → nr - 1 - n ≡ nr - suc n
sub_suc nr n = omega arith

namenode-policy :
    (done_lrs nr : ℕ) (act : Act)
    → done_lrs ≤ nr
    → nr < 2 ^ 32
    → default_commit_to_namenode_policy done_lrs nr act
      ≡ (nr - done_lrs, if ltb 0 done_lrs && (nr == done_lrs) then act_cnamenode else act)
unfolding default_commit_to_namenode_policy
namenode-policy zero nr act h f = rw (sub_zero nr) refl
namenode-policy (suc n) nr act h f =
    let now : (if ltb 0 (suc n) && (nr == suc n) then act_cnamenode else act)
        ≡ (if nr == suc n then act_cnamenode else act) =
      ap (λ b. if b && (nr == suc n) then act_cnamenode else act)
        (lt→ltb 0 (suc n) (omega arith)) in
    rw
      (
        dec_mod nr (omega arith) f,
        dec_is_zero nr (omega arith),
        namenode-policy n (nr - 1) (if nr == 1 then act_cnamenode else act) (omega arith)
            (omega arith),
        act-last n nr act h,
      )
      (ap (λ m. (m, if nr == suc n then act_cnamenode else act)) (sub_suc nr n)
        ∙ ap (λ b. (nr - suc n, b)) (sym now))

act-completes :
    (w w' n nr : ℕ) (act : Act)
    → w ≡ w' + n
    → nr ≡ w' + n
    → (if ltb 0 n && (nr == n) then act_cnamenode else act)
      ≡ (if ltb 0 w && (w' == 0) then act_cnamenode else act)
act-completes w zero n nr act e f = ground arith
act-completes w (suc w') n nr act e f = ground arith

-- A datanode's tag that is well formed, its tags not NULL and of different located requests, each of
-- which is there and waits for the answer.
pub record Expected (ack : Ack) (ddt : DatanodeTag) (dmeta : DmsMetadata) : Type 0 where
  pub wf : IsWf ddt.payload_tags
  pub some_tag : NonNull ddt.payload_tags.nodes
  pub awaited :
      All
        (AwaitedTag dmeta.op (kind ack) dmeta.lrs)
        (map ddt.tag_at (map Node.user_data ddt.payload_tags.nodes))
  pub distinct : DistinctTags (map ddt.tag_at (map Node.user_data ddt.payload_tags.nodes))

-- The counters are words, and `nr_waiting_lrs` is the number of the requests that wait.
pub record CountsWaiting (dmeta : DmsMetadata) : Type 0 where
  pub words : All IsWord dmeta.lrs
  pub counted : dmeta.nr_waiting_lrs ≡ waiting_lrs dmeta.lrs
  pub few : dmeta.nr_waiting_lrs < 2 ^ 32

-- An answer of a datanode that is expected, to metadata whose count of waiting requests is right
-- and below 2^32: it is handled without a bad read, the count is right afterwards, and the metadata
-- goes back to the namenode exactly if a request waited for an answer on disk before and none does
-- afterwards.
pub volume_io_commiter-completes :
    (ack : Ack) (ddt : DatanodeTag) (dmeta : DmsMetadata)
    → CountsWaiting dmeta
    → Expected ack ddt dmeta
    → (ddt' : DatanodeTag) × (dmeta' : DmsMetadata) × (act : Act) × (volume_io_commiter ack ddt
          dmeta
        ≡ some (ddt', dmeta', act))
      × CountsWaiting dmeta'
      × (act ≡ (
          if ltb 0 (waiting_lrs dmeta.lrs) && (waiting_lrs dmeta'.lrs == 0)
          then act_cnamenode
          else failed))
unfolding volume_io_commiter commited default_commit_to_user_policy tagged walked
volume_io_commiter-completes ack ddt dmeta inv e =
    let tags = map ddt.tag_at (map Node.user_data ddt.payload_tags.nodes) in
    let walk =
      iterate-reset ddt.payload_tags (suc (length ddt.payload_tags.nodes)) e.wf e.some_tag
        (omega arith) in
    let (dmeta', n, ran, r) = handle_tags-Handled ack tags dmeta inv.words e.awaited e.distinct in
    let nr : dmeta'.nr_waiting_lrs ≡ waiting_lrs dmeta'.lrs + n = r.nr ∙ inv.counted ∙ r.count in
    let policy =
      namenode-policy n dmeta'.nr_waiting_lrs failed (omega (arith, nr))
        (omega (arith, r.nr, inv.few)) in
    (
      record ddt { payload_tags = record ddt.payload_tags { next_node = none } },
      record dmeta' { nr_waiting_lrs = dmeta'.nr_waiting_lrs - n },
      (if ltb 0 n && (dmeta'.nr_waiting_lrs == n) then act_cnamenode else failed),
      rw (walk, ran, policy) refl,
      record { words = r.words; counted = omega (arith, nr); few = omega (arith, r.nr, inv.few) },
      act-completes _ _ n _ failed r.count nr,
    )
