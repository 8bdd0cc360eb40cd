-- ===== src/Usb/Submit.antt =====
-- driver/usb.c: wrap_bulk_or_intr_trans and wrap_vendor_or_class_req, from the request to Linux's answer.
-- How Linux packs a pipe is a parameter.
use ndiswrapper.Base.{
  ℕ, ◌%◌, ◌≡◌, ◌≢◌, refl, sym, Bool, true, false, ◌&&◌, not, arith, ◌==◌, if◌then◌else◌, some, ℤ,
  pos, eqb_ℤ, ◌⊎◌, inl, inr, Bool-cases, subst,
}
use ndiswrapper.Usb.{
  allocated, Urbs, set_urb, wrap_alloc_urb, take_urb, attach_buffer, wrap_free_urb, wrap_submit_urb,
  wrap_urb_status,
}
use ndiswrapper.Usb.Pipes.{Endpoint}
use ndiswrapper.Usb.Control.{setup_packet}
use ndiswrapper.Usb.Schedule.{in_flight}

-- The pipes of Linux: from an endpoint address, and whether a pipe leads to the host.
pub record PipeCoding : Type 0 where
  pub rcvbulk : ℕ → ℕ
  pub sndbulk : ℕ → ℕ
  pub rcvint : ℕ → ℕ
  pub sndint : ℕ → ℕ
  pub rcvctrl : ℕ
  pub sndctrl : ℕ
  pub pipein : ℕ → Bool

-- What Linux answers: memory for a wrap_urb with its urb, for the buffer and for the setup packet, and
-- the result of usb_submit_urb.
pub record Answers : Type 0 where
  pub fresh : ℕ
  pub dma : Bool
  pub setup_memory : Bool
  pub submit : ℤ

-- The pipe of a bulk or interrupt transfer.
pub transfer_pipe : PipeCoding → Endpoint → Bool → ℕ
transfer_pipe c ep dir_in =
    if ep.attributes % 4 == 2
    then (if dir_in then c.rcvbulk ep.address else c.sndbulk ep.address)
    else (if dir_in then c.rcvint ep.address else c.sndint ep.address)

abbrev pub piped : Urbs → ℕ → ℕ → Bool → Urbs
piped s w pipe short_not_ok =
    set_urb s w (record (s.urbs w) { pipe = pipe; short_not_ok = short_not_ok })

pub wrap_bulk_or_intr_trans : PipeCoding → Answers → Urbs → ℕ → Endpoint → Bool → Bool → Urbs × ℕ
unfolding transfer_pipe
wrap_bulk_or_intr_trans c a s i ep dir_in short_ok =
    let pipe = transfer_pipe c ep dir_in in
    let (s', w) = wrap_alloc_urb s i (not (c.pipein pipe)) a.fresh a.dma in
    if w == 0
    then (s', 0x80000100)
    else wrap_submit_urb (piped s' w pipe (c.pipein pipe && not short_ok)) i a.submit

pub wrap_vendor_or_class_req :
    PipeCoding → Answers → Urbs → ℕ → ℕ → Bool → Bool → ℕ → ℕ → ℕ → ℕ → Urbs × ℕ
wrap_vendor_or_class_req c a s i function dir_in short_ok reserved_bits request value index =
    let pipe = if dir_in then c.rcvctrl else c.sndctrl in
    let (s', w) = wrap_alloc_urb s i (not (c.pipein pipe)) a.fresh a.dma in
    let s'' = piped s' w pipe (c.pipein pipe && not short_ok) in
    let u = s''.urbs w in
    let packet =
      setup_packet function dir_in reserved_bits request value index u.transfer_buffer_length in
    if w == 0
    then (s', 0x80000100)
    else if a.setup_memory
    then wrap_submit_urb (set_urb s'' w (record u { setup_packet = some packet })) i a.submit
    else (wrap_free_urb s'' w, 0x80000100)

-- How a request stands: in flight, with the status PENDING, or refused, with another status and no
-- wrap_urb.
abbrev pub IsSettled : ℕ → Urbs × ℕ → Type 0
IsSettled i r =
    ((r.1 ≡ 0x40000000) × (in_flight r.0 i ≡ true))
    ⊎ ((r.1 ≢ 0x40000000) × ((r.0.irps i).wrap_urb ≡ 0) × ((r.0.irps i).cancel_routine ≡ false))

-- The IRP owns a wrap_urb that is not submitted yet.
abbrev Owns : Urbs → ℕ → ℕ → Type 0
Owns s i w =
    (w ≢ 0) × ((s.irps i).wrap_urb ≡ w) × ((s.urbs w).state ≡ allocated) × ((s.urbs w).irp ≡ i)

status_ne_pending : (e : ℤ) → wrap_urb_status e ≢ 0x40000000
unfolding wrap_urb_status
status_ne_pending e h = ground arith

take_lem :
    (s : Urbs) (i fresh : ℕ)
    → (take_urb s i fresh ≡ (s, 0)) ⊎ Owns (take_urb s i fresh).0 i (take_urb s i fresh).1
unfolding take_urb
take_lem s i fresh = ground arith

attach_lem :
    (s : Urbs) (i w : ℕ) (pipe_out dma : Bool)
    → Owns s i w
    → let r = attach_buffer s i pipe_out dma in
      ((r.1 ≡ 0) × ((r.0.irps i).wrap_urb ≡ 0) × ((r.0.irps i).cancel_routine ≡ false))
      ⊎ ((r.1 ≡ w) × Owns r.0 i w)
unfolding attach_buffer
attach_lem s i w pipe_out dma (n, own, st, back) = elim (Bool-cases (s.irps i).dma_needed) [
  | inl needed ↦ elim (Bool-cases dma) [
    | inl there ↦ inr (ground arith, (n, ground arith, ground arith, ground arith))
    | inr none_left ↦ inl (ground arith, ground arith, ground arith)
  ]
  | inr direct ↦ inr (ground arith, (n, ground arith, ground arith, ground arith))
]

free_settles :
    (s : Urbs) (i w : ℕ)
    → (s.urbs w).irp ≡ i
    → (((wrap_free_urb s w).irps i).wrap_urb ≡ 0)
      × (((wrap_free_urb s w).irps i).cancel_routine ≡ false)
unfolding wrap_free_urb
free_settles s i w back = (ground (arith, back), ground (arith, back))

submit_settles : (s : Urbs) (i w : ℕ) (ret : ℤ) → Owns s i w → IsSettled i (wrap_submit_urb s i ret)
unfolding wrap_submit_urb
submit_settles s i w ret (n, own, st, back) = elim (Bool-cases (eqb_ℤ ret (pos 0))) [
  | inl accepted ↦ inl (ground arith, ground arith)
  | inr refused ↦
      let (idle, off) = free_settles (wrap_submit_urb s i (pos 0)).0 i w (ground arith) in
      inr (
        ground (arith, status_ne_pending ret),
        ground (arith, own, refused, idle),
        ground (arith, own, refused, off),
      )
]

-- wrap_alloc_urb for an IRP that owns nothing: NULL and the IRP owns nothing, or the IRP owns the result.
alloc_lem :
    (s : Urbs) (i fresh : ℕ) (pipe_out dma : Bool)
    → (s.irps i).wrap_urb ≡ 0
    → (s.irps i).cancel_routine ≡ false
    → let r = wrap_alloc_urb s i pipe_out fresh dma in
      ((r.1 ≡ 0) × ((r.0.irps i).wrap_urb ≡ 0) × ((r.0.irps i).cancel_routine ≡ false))
      ⊎ Owns r.0 i r.1
unfolding wrap_alloc_urb
alloc_lem s i fresh pipe_out dma idle off = elim (take_lem s i fresh) [
  | inl failed ↦ inl (rw failed (refl, idle, off))
  | inr own ↦
      let t = take_urb s i fresh in
      let some_urb : (t.1 == 0) ≡ false = ground (arith, own) in
      elim (attach_lem t.0 i t.1 pipe_out dma own) [
        | inl back ↦ inl (rw some_urb back)
        | inr (e, owns) ↦
            inr (
              rw some_urb (subst (λ x. Owns (attach_buffer t.0 i pipe_out dma).0 i x) (sym e) owns))
      ]
]

piped-Owns :
    (s : Urbs) (i w pipe : ℕ) (short_not_ok : Bool)
    → Owns s i w
    → Owns (piped s w pipe short_not_ok) i w
piped-Owns s i w pipe short_not_ok (n, own, st, back) =
    (n, own, ground (arith, st), ground (arith, back))

bulk_settles :
    (c : PipeCoding) (a : Answers) (s : Urbs) (i : ℕ) (ep : Endpoint) (dir_in short_ok : Bool)
    → (s.irps i).wrap_urb ≡ 0
    → (s.irps i).cancel_routine ≡ false
    → IsSettled i (wrap_bulk_or_intr_trans c a s i ep dir_in short_ok)
unfolding wrap_bulk_or_intr_trans
bulk_settles c a s i ep dir_in short_ok idle off =
    let pipe = transfer_pipe c ep dir_in in
    let out = not (c.pipein pipe) in
    let short_not_ok = c.pipein pipe && not short_ok in
    let r = wrap_alloc_urb s i out a.fresh a.dma in
    elim (alloc_lem s i a.fresh out a.dma idle off) [
      | inl (none_there, idle', off') ↦
          let e : (r.1 == 0) ≡ true = ground arith in rw e (inr (λ z. ground arith, idle', off'))
      | inr own ↦
          let e : (r.1 == 0) ≡ false = ground (arith, own) in
          rw e (
            submit_settles (piped r.0 r.1 pipe short_not_ok) i r.1 a.submit
              (piped-Owns r.0 i r.1 pipe short_not_ok own))
    ]

vendor_settles :
    (c : PipeCoding) (a : Answers) (s : Urbs) (i function : ℕ) (dir_in short_ok : Bool)
    (reserved_bits request value index : ℕ)
    → (s.irps i).wrap_urb ≡ 0
    → (s.irps i).cancel_routine ≡ false
    → IsSettled i (
        wrap_vendor_or_class_req c a s i function dir_in short_ok reserved_bits request value index)
unfolding wrap_vendor_or_class_req
vendor_settles c a s i function dir_in short_ok reserved_bits request value index idle off =
    let pipe = if dir_in then c.rcvctrl else c.sndctrl in
    let out = not (c.pipein pipe) in
    let short_not_ok = c.pipein pipe && not short_ok in
    let r = wrap_alloc_urb s i out a.fresh a.dma in
    elim (alloc_lem s i a.fresh out a.dma idle off) [
      | inl (none_there, idle', off') ↦
          let e : (r.1 == 0) ≡ true = ground arith in rw e (inr (λ z. ground arith, idle', off'))
      | inr own ↦
          let e : (r.1 == 0) ≡ false = ground (arith, own) in
          let (n, has_urb, st, back) = piped-Owns r.0 i r.1 pipe short_not_ok own in
          elim (Bool-cases a.setup_memory) [
            | inl memory ↦
                rw (e, memory)
                  (submit_settles _ i r.1 a.submit
                    (n, has_urb, ground (arith, st), ground (arith, back)))
            | inr no_memory ↦
                let (idle', off') = free_settles (piped r.0 r.1 pipe short_not_ok) i r.1 back in
                rw (e, no_memory) (inr (λ z. ground arith, idle', off'))
          ]
    ]

-- A request whose IRP owns no wrap_urb, whatever Linux answers: wrap_bulk_or_intr_trans and
-- wrap_vendor_or_class_req return USBD_STATUS_PENDING and the IRP is in flight, so the worker will
-- complete it, or they return another status, and the IRP owns nothing and has no cancel routine, so
-- the caller may complete it.
pub transfer_settles :
    (c : PipeCoding) (a : Answers) (s : Urbs) (i function : ℕ) (ep : Endpoint)
    (dir_in short_ok : Bool) (reserved_bits request value index : ℕ)
    → (s.irps i).wrap_urb ≡ 0
    → (s.irps i).cancel_routine ≡ false
    → IsSettled i (wrap_bulk_or_intr_trans c a s i ep dir_in short_ok)
      × IsSettled i (
          wrap_vendor_or_class_req c a s i function dir_in short_ok reserved_bits request value
            index)
transfer_settles c a s i function ep dir_in short_ok reserved_bits request value index idle off = (
  bulk_settles c a s i ep dir_in short_ok idle off,
  vendor_settles c a s i function dir_in short_ok reserved_bits request value index idle off,
)
