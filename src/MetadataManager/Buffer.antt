-- ===== src/MetadataManager/Buffer.antt =====
-- DriverCore/Metadata_Manager.c, Namenode_Receiver: whether the body of a response fits the buffer that it
-- is received into.
use dms_blkdev.Base.{
  ℕ, ◌*◌, ◌≡◌, refl, ◌⊎◌, inl, inr, Bool, true, false, ◌&&◌, ◌||◌, Option, none, some, List, [],
  ◌∷◌, arith, leb, ◌==◌, if◌then◌else◌, Bool-cases,
}
use dms_blkdev.SSocket.Transfer.{is_negative}
use dms_blkdev.MetadataManager.{
  Header, parse_nn_protocol_header, grow_up_buffer, BodyCall, is_longer, recv_query_response,
  capacity_after, namenode_receiver, page_size,
}

-- One page, or two since a longer body came.
abbrev pub IsOneOrTwo : ℕ → Type 0
IsOneOrTwo c = (c ≡ page_size) ⊎ (c ≡ 2 * page_size)

grown-IsOneOrTwo :
    (made : Bool) (c : ℕ) → IsOneOrTwo c → IsOneOrTwo (grow_up_buffer made c page_size).0
unfolding grow_up_buffer
grown-IsOneOrTwo true c i = inr refl
grown-IsOneOrTwo false c i = i

capacity-IsOneOrTwo :
    (made : Bool) (c : ℕ) (h : Header)
    → IsOneOrTwo c
    → IsOneOrTwo (capacity_after c (recv_query_response made c page_size h))
unfolding recv_query_response
capacity-IsOneOrTwo made c h i = elim (Bool-cases (parse_nn_protocol_header h).1) [
  | inl g ↦ elim (Bool-cases (is_longer (parse_nn_protocol_header h).0.body_length page_size)) [
    | inl l ↦ rw (g, l) (grown-IsOneOrTwo made c i)
    | inr l ↦ rw (g, l) i
  ]
  | inr g ↦ rw g i
]

-- However many responses the receiver has handled, starting from one page.
receiver-IsOneOrTwo :
    (es : List (Header × Bool)) (c : ℕ) → IsOneOrTwo c → IsOneOrTwo (namenode_receiver es c)
unfolding namenode_receiver
receiver-IsOneOrTwo [] c i = i
receiver-IsOneOrTwo ((h, made) ∷ es) c i = receiver-IsOneOrTwo es _ (capacity-IsOneOrTwo made c h i)

abbrev pub fits : Option BodyCall → Bool
fits none = true
fits (some c) = leb c.length c.capacity

body-fits :
    (made : Bool) (c l : ℕ)
    → is_negative l ≡ false
    → IsOneOrTwo c
    → leb l (if is_longer l page_size then (grow_up_buffer made c page_size).0 else c)
      ≡ (leb l page_size || (leb l (2 * page_size) && (made || (c == 2 * page_size))))
unfolding grow_up_buffer
body-fits true c l pos (inl e) = rw (pos, e) (ground arith)
body-fits true c l pos (inr e) = rw (pos, e) (ground arith)
body-fits false c l pos (inl e) = rw (pos, e) (ground arith)
body-fits false c l pos (inr e) = rw (pos, e) (ground arith)

-- The body of a response that the namenode's receiver is about to receive, after however many
-- responses: its header has the right magic number and its length is not negative. It fits the
-- buffer exactly if it has one page at most, or two pages at most where kmalloc gives memory or the
-- buffer has two pages. So a longer one is written behind the end of the buffer.
pub recv_query_response-fits :
    (es : List (Header × Bool)) (made : Bool) (header : Header)
    → let length = (parse_nn_protocol_header header).0.body_length in
      let capacity = namenode_receiver es page_size in
      (parse_nn_protocol_header header).1 ≡ true
      → is_negative length ≡ false
      → fits (recv_query_response made capacity page_size header) ≡ (
          leb length page_size
          || (leb length (2 * page_size) && (made || (capacity == 2 * page_size))))
unfolding recv_query_response
recv_query_response-fits es made header good pos =
    rw good (body-fits made _ _ pos (receiver-IsOneOrTwo es page_size (inl refl)))
