-- ===== src/Netlink/Replies.antt =====
-- `link_send` of src/iface_gre.c: the walk over the kernel's replies. A datagram is the list of its
-- bytes, and a read past its end is a fault; what `recvfrom` returns round by round is a list.
use softgre.Shared.{
  ℕ, zero, suc, ◌+◌, ◌-◌, ◌*◌, ◌^◌, ◌≤◌, ◌<◌, ◌≡◌, refl, ap, ◌∙◌, Bool, true, false, not, ◌&&◌,
  ◌||◌, List, [], ◌∷◌, Option, none, some, arith, ltb, leb, ◌==◌, if◌then◌else◌, length, take,
  take-all, ◌++◌, ◌≢◌, Run, ok, fault, ◌>>=◌, Returns, Returns-if, Bool-cases, inl, inr,
}
use softgre.Maps.{is_some}
use softgre.Payload.{read8}
use softgre.Payload.Safe.{at8, read8-at8}
use softgre.Netlink.{align}

-- Little-endian fields.
unfoldable pub field16 : List ℕ → ℕ → Run ℕ
unfolding read8
field16 bytes i = do lo ← read8 bytes i; hi ← read8 bytes (i + 1); ok (lo + hi * 256)

unfoldable pub field32 : List ℕ → ℕ → Run ℕ
unfolding field16
field32 bytes i = do lo ← field16 bytes i; hi ← field16 bytes (i + 2); ok (lo + hi * 65536)

-- What a datagram says: nothing for this request, success, or the number in `errno`.
pub data Answer : Type 0 where
  no_answer acknowledged : Answer
  refused : ℕ → Answer

-- `-error->error` of a number that is not 0, as 32 bits.
abbrev pub answer_of : ℕ → Answer
answer_of error = if error == 0 then acknowledged else refused (2 ^ 32 - error)

-- The loop over the messages of a datagram from `at` on, where `got` bytes are left: NLMSG_OK is the
-- three tests, and NLMSG_NEXT the two new values. `rounds` bounds the messages.
unfoldable pub walk : ℕ → List ℕ → ℕ → ℕ → ℕ → Run Answer
unfolding field16 field32
walk zero bytes seq at got = fault
walk (suc rounds) bytes seq at got = if ltb got 16 then ok no_answer else do
  len ← field32 bytes at
  if ltb len 16 || ltb got len then ok no_answer else do
    let next = walk rounds bytes seq (at + align len) (got - align len)
    nlmsg_seq ← field32 bytes (at + 8)
    nlmsg_type ← field16 bytes (at + 4)
    if not (nlmsg_seq == seq)
        then next
        else if nlmsg_type == 2 && leb 36 len
        then (do error ← field32 bytes (at + 16); ok (answer_of error))
        else next

-- `recvfrom`: a datagram with the sender's `nl_pid`, EINTR, or another error such as the timeout.
pub data Reply : Type 0 where
  datagram : ℕ → List ℕ → Reply
  interrupted : Reply
  failed : ℕ → Reply

abbrev pub reply_size : ℕ
reply_size = 8192

-- What `link_send` returns: 0, or -1 with `errno`.
pub data Sending : Type 0 where
  sent : Sending
  not_sent : ℕ → Sending

-- The loop over the datagrams, on what its calls of `recvfrom` return; `none` if it has not returned
-- after them. A datagram of another sender than the kernel is not looked at.
unfoldable pub receive : ℕ → List Reply → Run (Option Sending)
unfolding walk
receive seq [] = ok none
receive seq (interrupted ∷ replies) = receive seq replies
receive seq (failed errno ∷ replies) = ok (some (not_sent errno))
receive seq (datagram pid bytes ∷ replies) =
    let rest = receive seq replies in
    let got = take reply_size bytes in
    if not (pid == 0) then rest else do
      answer ← walk (length got + 1) got seq 0 (length got)
      elim answer [
        | no_answer ↦ rest
        | acknowledged ↦ ok (some sent)
        | refused errno ↦ ok (some (not_sent errno))
      ]

-- With what `socket` and `sendto` returned: an error, or none.
unfoldable pub link_send : Option ℕ → Option ℕ → List Reply → Run (Option Sending)
unfolding receive
link_send (some errno) send replies = ok (some (not_sent errno))
link_send none (some errno) replies = ok (some (not_sent errno))
link_send none none replies = receive 1 replies

module _ (bytes : List ℕ) where
  unfoldable pub le16 : ℕ → ℕ
  unfolding at8
  le16 i = at8 bytes i + at8 bytes (i + 1) * 256

  unfoldable pub le32 : ℕ → ℕ
  unfolding le16
  le32 i = le16 i + le16 (i + 2) * 65536

  field16-le16 : (i : ℕ) → i + 1 < length bytes → field16 bytes i ≡ ok (le16 i)
  unfolding field16 le16
  field16-le16 i h = rw (read8-at8 bytes i (omega (arith, h)), ◌>>=◌, read8-at8 bytes (i + 1) h)

  field32-le32 : (i : ℕ) → i + 3 < length bytes → field32 bytes i ≡ ok (le32 i)
  unfolding field32 le32
  field32-le32 i h =
      rw (field16-le16 i (omega (arith, h)), ◌>>=◌, field16-le16 (i + 2) (omega (arith, h)))

  -- The walk as a total function.
  unfoldable pub answer_in : ℕ → ℕ → ℕ → ℕ → Answer
  unfolding le32
  answer_in zero seq at got = no_answer
  answer_in (suc rounds) seq at got =
      let next = answer_in rounds seq (at + align (le32 at)) (got - align (le32 at)) in
      if ltb got 16 || ltb (le32 at) 16 || ltb got (le32 at)
      then no_answer
      else if le32 (at + 8) == seq && (le16 (at + 4) == 2 && leb 36 (le32 at))
      then answer_of (le32 (at + 16))
      else next

  -- The walk never reads past the datagram.
  walk-answer_in :
      (rounds seq at got : ℕ)
      → (16 ≤ got → at + got ≤ length bytes)
      → got < rounds
      → walk rounds bytes seq at got ≡ ok (answer_in rounds seq at got)
  unfolding walk answer_in
  walk-answer_in zero seq at got h r = absurd (omega (arith, r))
  walk-answer_in (suc rounds) seq at got h r = elim (Bool-cases (ltb got 16)) [
    | inl e ↦ rw e (ground arith)
    | inr e ↦
        let room : 16 ≤ got = ground arith in
        let within = h room in
        elim (Bool-cases (ltb (le32 at) 16 || ltb got (le32 at))) [
          | inl f ↦ rw (e, field32-le32 at (omega (arith, within, room)), ◌>>=◌, f)
          | inr f ↦
              let long : 16 ≤ le32 at = ground arith in
              let next =
                walk-answer_in rounds seq (at + align (le32 at)) (got - align (le32 at))
                  (λ more. omega (arith, within, more)) (omega (arith, r, long, room)) in
              rw
                (
                  e,
                  field32-le32 at (omega (arith, within, room)),
                  ◌>>=◌,
                  f,
                  field32-le32 (at + 8) (omega (arith, within, room)),
                  field16-le16 (at + 4) (omega (arith, within, room)),
                  next,
                )
                (elim (Bool-cases (le16 (at + 4) == 2 && leb 36 (le32 at))) [
                  | inl k ↦
                      let inside : le32 at ≤ got = ground arith in
                      let far : 36 ≤ le32 at = ground arith in
                      rw (k, field32-le32 (at + 16) (omega (arith, within, inside, far)), ◌>>=◌)
                        (ground arith)
                  | inr k ↦ rw k (ground arith)
                ])
        ]
  ]

-- Whether one of the results is an error, such as that of the timeout.
unfoldable pub some_failure : List Reply → Bool
some_failure [] = false
some_failure (interrupted ∷ replies) = some_failure replies
some_failure (failed errno ∷ replies) = true
some_failure (datagram pid bytes ∷ replies) = some_failure replies

-- The loop has returned if one of the results is an error.
abbrev Left : List Reply → Option Sending → Type 0
Left replies r = some_failure replies ≡ true → is_some r ≡ true

receive-Left : (seq : ℕ) (replies : List Reply) → Returns (receive seq replies) (Left replies)
unfolding receive some_failure
receive-Left seq [] = (none, refl, λ e. cc)
receive-Left seq (interrupted ∷ replies) = receive-Left seq replies
receive-Left seq (failed errno ∷ replies) = (some (not_sent errno), refl, λ e. refl)
receive-Left seq (datagram pid bytes ∷ replies) =
    let got = take reply_size bytes in
    Returns-if (not (pid == 0)) (λ e. receive-Left seq replies)
      (λ e.
        rw
          (
            walk-answer_in got (length got + 1) seq 0 (length got) (λ h. omega arith) (omega arith),
            ◌>>=◌,
          )
          (by_answer (answer_in got (length got + 1) seq 0 (length got))
            (receive-Left seq replies)))
  where
    by_answer :
        (a : Answer)
        → Returns (receive seq replies) (Left replies)
        → Returns
            (elim a [
              | no_answer ↦ receive seq replies
              | acknowledged ↦ ok (some sent)
              | refused errno ↦ ok (some (not_sent errno))
            ])
            (Left replies)
    by_answer no_answer rest = rest
    by_answer acknowledged rest = (some sent, refl, λ e. refl)
    by_answer (refused errno) rest = (some (not_sent errno), refl, λ e. refl)

-- The kernel's answer to the request, with its error number.
pub record IsAnswer (bytes : List ℕ) (error : ℕ) : Type 0 where
  pub size : 36 ≤ length bytes
  pub size_max : length bytes ≤ reply_size
  pub nlmsg_len : le32 bytes 0 ≡ 36
  pub nlmsg_type : le16 bytes 4 ≡ 2
  pub nlmsg_seq : le32 bytes 8 ≡ 1
  pub error_field : le32 bytes 16 ≡ error

-- What is passed over: an interruption, or a datagram of another sender.
abbrev pub AllPassed : List Reply → Type 0
AllPassed [] = Unit
AllPassed (datagram pid bytes ∷ replies) = (pid ≢ 0) × AllPassed replies
AllPassed (interrupted ∷ replies) = AllPassed replies
AllPassed (failed errno ∷ replies) = ⊥

receive_passed :
    (noise replies : List Reply)
    → AllPassed noise
    → receive 1 (noise ++ replies) ≡ receive 1 replies
unfolding receive
receive_passed [] replies p = refl
receive_passed (datagram pid bytes ∷ noise) replies (n, p) =
    let other : not (pid == 0) ≡ true = ground (arith, n) in
    rw other (receive_passed noise replies p)
receive_passed (interrupted ∷ noise) replies p = receive_passed noise replies p
receive_passed (failed errno ∷ noise) replies p = absurd p

answer_in-answer_of :
    (bytes : List ℕ) (error rounds : ℕ)
    → IsAnswer bytes error
    → answer_in bytes (suc rounds) 1 0 (length bytes) ≡ answer_of error
unfolding answer_in
answer_in-answer_of bytes error rounds a =
    let len = a.nlmsg_len in
    let type = a.nlmsg_type in
    let seq = a.nlmsg_seq in
    let err = a.error_field in let size = a.size in ground (arith, len, type, seq, err, size)

sent_by :
    (error : ℕ) (rest : Run (Option Sending))
    → (elim (answer_of error) [
      | no_answer ↦ rest
      | acknowledged ↦ ok (some sent)
      | refused errno ↦ ok (some (not_sent errno))
    ])
      ≡ ok (some (if error == 0 then sent else not_sent (2 ^ 32 - error)))
sent_by error rest = elim (Bool-cases (error == 0)) [ inl e ↦ rw e refl | inr e ↦ rw e refl ]

receive_answer :
    (bytes : List ℕ) (error : ℕ) (rest : List Reply)
    → IsAnswer bytes error
    → receive 1 (datagram 0 bytes ∷ rest)
      ≡ ok (some (if error == 0 then sent else not_sent (2 ^ 32 - error)))
unfolding receive
receive_answer bytes error rest a =
    let whole = take-all reply_size bytes a.size_max in
    let walked =
      walk-answer_in bytes (length bytes + 1) 1 0 (length bytes) (λ h. omega arith) (omega arith) in
    let rounds : length bytes + 1 ≡ suc (length bytes) = omega arith in
    let answer =
      ap (λ (n : ℕ). answer_in bytes n 1 0 (length bytes)) rounds
      ∙ answer_in-answer_of bytes error (length bytes) a in
    rw (whole, walked, ◌>>=◌, answer) (sent_by error (receive 1 rest))

pub link_send_answered :
    (socket send : Option ℕ) (replies : List Reply)
    → Returns (link_send socket send replies) (λ r. some_failure replies ≡ true → is_some r ≡ true)
      × ((noise rest : List Reply) (bytes : List ℕ) (error : ℕ)
          → AllPassed noise
          → IsAnswer bytes error
          → link_send none none (noise ++ datagram 0 bytes ∷ rest)
            ≡ ok (some (if error == 0 then sent else not_sent (2 ^ 32 - error))))
unfolding link_send receive
link_send_answered socket send replies = (
  returned socket send,
  λ noise rest bytes error p a.
      receive_passed noise (datagram 0 bytes ∷ rest) p ∙ receive_answer bytes error rest a,
)
  where
    returned : (socket send : Option ℕ) → Returns (link_send socket send replies) (Left replies)
    returned (some errno) send = (some (not_sent errno), refl, λ e. refl)
    returned none (some errno) = (some (not_sent errno), refl, λ e. refl)
    returned none none = receive-Left 1 replies
