-- ===== src/DriverCore/Policy.antt =====
-- DriverCore/Driver_Core.c: __Update_and_Commit_to_User_Policy, what one answer of a datanode does to
-- the counters of a located request, and the action that follows.
use dms_blkdev.Base.{
  ℕ, ◌+◌, ◌-◌, ◌%◌, ◌^◌, Bool, true, false, Option, none, some, List, ◌==◌, if◌then◌else◌,
  get_elem?, set,
}
use dms_blkdev.Dio.{Op, read, alloc_write}

-- `enum DMS_DN_Sub_Type`.
pub data Ack : Type 0 where
  undefined : Ack
  timeout : Ack
  exception : Ack
  io_exception : Ack
  io_fail_but_lun_ok_exception : Ack
  failed_lun_exception : Ack
  partial_fail : Ack
  service : Ack
  response : Ack
  read_ack : Ack
  wmem_ack : Ack
  wdisk_ack : Ack
  pwmem_ack : Ack
  pwdisk_ack : Ack
  rereplication_ack : Ack
  hb_invalidation_ack : Ack

-- The value of the enumerator as a 32-bit word.
unfoldable pub ack_word : Ack → ℕ
ack_word undefined = 2 ^ 32 - 1000
ack_word timeout = 2 ^ 32 - 1001
ack_word exception = 2 ^ 32 - 1002
ack_word io_exception = 2 ^ 32 - 1003
ack_word io_fail_but_lun_ok_exception = 2 ^ 32 - 1004
ack_word failed_lun_exception = 2 ^ 32 - 1005
ack_word partial_fail = 2 ^ 32 - 2001
ack_word service = 1
ack_word response = 2
ack_word read_ack = 101
ack_word wmem_ack = 102
ack_word wdisk_ack = 103
ack_word pwmem_ack = 104
ack_word pwdisk_ack = 105
ack_word rereplication_ack = 106
ack_word hb_invalidation_ack = 107

-- `failed` is -DMS_FAIL, the others are the actions defined in the file.
pub data Act : Type 0 where
  failed : Act
  waiting : Act
  act_cuser : Act
  act_lrdone : Act
  act_cnamenode : Act

-- `atomic_dec_and_test` on a 32-bit word.
abbrev pub dec_and_test : ℕ → ℕ × Bool
dec_and_test n = let n' = (n + (2 ^ 32 - 1)) % 2 ^ 32 in (n', n' == 0)

-- The fields of `struct Located_Request` that an answer reads or changes. `dn_results` holds the
-- results of its datanode locations, `committed_user` is COMMITTED_USER_BIT of its commit state.
pub record Lr : Type 0 where
  pub slbid : ℕ
  pub nr_lbids : ℕ
  pub wmem_ack : ℕ
  pub wdisk_ack : ℕ
  pub dn_results : List ℕ
  pub committed_user : Bool

abbrev pub update_mem_ack : Lr → Lr × Act
update_mem_ack lr =
    let (n, last) = dec_and_test lr.wmem_ack in
    (record lr { wmem_ack = n }, if last then act_cuser else waiting)

abbrev pub update_disk_ack : Bool → Lr → Lr × Act
update_disk_ack cuser lr =
    let (n, last) = dec_and_test lr.wdisk_ack in
    (record lr { wdisk_ack = n }, if last then act_lrdone else if cuser then act_cuser else waiting)

abbrev pub is_nonzero : Act → Bool
is_nonzero waiting = false
is_nonzero failed = true
is_nonzero act_cuser = true
is_nonzero act_lrdone = true
is_nonzero act_cnamenode = true

-- The answer of a datanode that failed.
unfoldable pub failed_ack : Op → Lr → Lr × Act
failed_ack read lr = (lr, failed)
failed_ack (alloc_write w) lr =
    let (lr', act) = update_mem_ack lr in update_disk_ack (is_nonzero act) lr'

-- The switch of `__Update_and_Commit_to_User_Policy`.
unfoldable pub switch_ack : Op → Ack → Lr → Lr × Act
unfolding failed_ack
switch_ack op wmem_ack lr = update_mem_ack lr
switch_ack op pwmem_ack lr = update_mem_ack lr
switch_ack op wdisk_ack lr = update_disk_ack true lr
switch_ack op pwdisk_ack lr = update_disk_ack true lr
switch_ack op read_ack lr = update_disk_ack true lr
switch_ack op undefined lr = failed_ack op lr
switch_ack op exception lr = failed_ack op lr
switch_ack op io_exception lr = failed_ack op lr
switch_ack op io_fail_but_lun_ok_exception lr = failed_ack op lr
switch_ack op failed_lun_exception lr = failed_ack op lr
switch_ack op timeout lr = (lr, failed)
switch_ack op partial_fail lr = (lr, failed)
switch_ack op service lr = (lr, failed)
switch_ack op response lr = (lr, failed)
switch_ack op rereplication_ack lr = (lr, failed)
switch_ack op hb_invalidation_ack lr = (lr, failed)

-- A disk acknowledgement that came first is not overwritten.
abbrev pub set_dn_result : ℕ → ℕ → ℕ
set_dn_result ack old = if old == ack_word wdisk_ack then old else ack

unfoldable pub acked_dn : Op → ℕ → Ack → Lr → Option ℕ → Option (Lr × Act)
acked_dn op dn_index ack lr none = none
acked_dn op dn_index ack lr (some r) = some (
    switch_ack op ack
      (record lr { dn_results = set lr.dn_results dn_index (set_dn_result (ack_word ack) r) }))

-- `none`: a read beyond the request's locations.
unfoldable pub update_and_commit_policy : Op → ℕ → Ack → Lr → Option (Lr × Act)
unfolding acked_dn
update_and_commit_policy op dn_index ack lr =
    acked_dn op dn_index ack lr (get_elem? lr.dn_results dn_index)
