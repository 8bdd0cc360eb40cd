-- ===== src/Usb/Invariant.antt =====
-- driver/usb.c: how the wrap_urbs of a device, the IRPs and the worker's list hang together, and that
-- every part of the life of an urb keeps it so.
use ndiswrapper.Base.{
  ℕ, ◌+◌, ◌≡◌, ◌≢◌, refl, Bool, true, false, ◌&&◌, List, [], ◌∷◌, ◌++◌, arith, ◌==◌, if◌then◌else◌,
  has, Distinct, has-append, has-erase, erase, erase-Distinct, append-Distinct, length,
  length-append, Bool-cases, inl, inr, ltb,
}
use ndiswrapper.NdisPool.Lists.{length-erase}
use ndiswrapper.Usb.{
  UrbState, allocated, submitted, completed, Urbs, WrapUrb, find_free, take_urb, wrap_free_urb,
  wrap_urb_complete, is_free, owned_by, cleared,
}

-- The states in which an IRP owns the wrap_urb.
abbrev pub is_active : UrbState → Bool
is_active allocated = true
is_active submitted = true
is_active completed = true
is_active _ = false

abbrev pub is_completed : UrbState → Bool
is_completed completed = true
is_completed _ = false

-- An IRP and its wrap_urb name each other, just while the wrap_urb is in use; the worker's list holds
-- the wrap_urbs that Linux has finished; and where the cancel routine of an IRP is set, the IRP has a
-- wrap_urb that Linux has not finished.
pub record IsUrbs (s : Urbs) : Type 0 where
  pub distinct : Distinct s.wrap_urb_list
  pub count : s.num_alloc_urbs ≡ length s.wrap_urb_list
  pub real : has 0 s.wrap_urb_list ≡ false
  pub listed : (i : ℕ) → (s.irps i).wrap_urb ≢ 0 → has (s.irps i).wrap_urb s.wrap_urb_list ≡ true
  pub active :
      (i : ℕ) → (s.irps i).wrap_urb ≢ 0 → is_active (s.urbs (s.irps i).wrap_urb).state ≡ true
  pub back : (i : ℕ) → (s.irps i).wrap_urb ≢ 0 → (s.urbs (s.irps i).wrap_urb).irp ≡ i
  pub owned :
      (w : ℕ)
      → has w s.wrap_urb_list ≡ true
      → is_active (s.urbs w).state ≡ true
      → (s.irps (s.urbs w).irp).wrap_urb ≡ w
  pub queue :
      (w : ℕ) → has w s.complete_list ≡ (has w s.wrap_urb_list && is_completed (s.urbs w).state)
  pub queue_distinct : Distinct s.complete_list
  pub cancelled :
      (i : ℕ)
      → (s.irps i).cancel_routine ≡ true
      → ((s.irps i).wrap_urb ≢ 0) × (is_completed (s.urbs (s.irps i).wrap_urb).state ≡ false)

pub find_free-free :
    (urbs : ℕ → WrapUrb) (ws : List ℕ)
    → find_free urbs ws ≢ 0
    → (has (find_free urbs ws) ws ≡ true) × (is_free (urbs (find_free urbs ws)).state ≡ true)
unfolding find_free
find_free-free urbs [] h = absurd (h refl)
find_free-free urbs (w ∷ ws) h = ground (arith, find_free-free urbs ws)

-- What both branches keep.
either :
    (b : Bool) (x y : Urbs × ℕ)
    → (b ≡ true → IsUrbs x.0)
    → (b ≡ false → IsUrbs y.0)
    → IsUrbs (if b then x else y).0
either true x y f g = f refl
either false x y f g = g refl

module _ (s : Urbs) (u : IsUrbs s) where
  -- Linux finishes an urb.
  pub complete_IsUrbs :
      (w : ℕ)
      → has w s.wrap_urb_list ≡ true
      → (s.urbs w).state ≡ submitted
      → IsUrbs (wrap_urb_complete s w)
  unfolding wrap_urb_complete
  complete_IsUrbs w on st = record {
    distinct = u.distinct;
    count = u.count;
    real = u.real;
    listed = λ i. ground (arith, u.listed i);
    active = λ i. ground (arith, u.active i);
    back = λ i. ground (arith, u.back i);
    owned = λ v. ground (arith, u.owned v);
    queue = λ v. ground (arith, u.queue v, u.queue w, has-append v s.complete_list (w ∷ []));
    queue_distinct = append-Distinct w s.complete_list u.queue_distinct (ground (arith, u.queue w));
    cancelled = λ i. ground (arith, u.cancelled i, u.back i, u.owned w);
  }

  -- The wrap_urb is also off the worker's list.
  pub free_IsUrbs :
      (w : ℕ)
      → has w s.wrap_urb_list ≡ true
      → is_active (s.urbs w).state ≡ true
      → IsUrbs (wrap_free_urb (record s { complete_list = erase w s.complete_list }) w)
  unfolding wrap_free_urb
  free_IsUrbs w on act = elim (Bool-cases (ltb 15 s.num_alloc_urbs)) [
    | inl many ↦ rw many (record {
      distinct = erase-Distinct w s.wrap_urb_list u.distinct;
      count = omega (arith, u.count, length-erase w s.wrap_urb_list on);
      real = ground (arith, u.real, has-erase 0 w s.wrap_urb_list u.distinct);
      listed = λ i. ground (
        arith,
        u.listed i,
        u.back i,
        u.owned w,
        has-erase (s.irps i).wrap_urb w s.wrap_urb_list u.distinct,
      );
      active = λ i. ground (arith, u.active i);
      back = λ i. ground (arith, u.back i);
      owned = λ v. ground (arith, u.owned v, u.owned w, has-erase v w s.wrap_urb_list u.distinct);
      queue = λ v. ground (
        arith,
        u.queue v,
        has-erase v w s.wrap_urb_list u.distinct,
        has-erase v w s.complete_list u.queue_distinct,
      );
      queue_distinct = erase-Distinct w s.complete_list u.queue_distinct;
      cancelled = λ i. ground (arith, u.cancelled i);
    })
    | inr few ↦ rw few (record {
      distinct = u.distinct;
      count = u.count;
      real = u.real;
      listed = λ i. ground (arith, u.listed i);
      active = λ i. ground (arith, u.active i, u.back i);
      back = λ i. ground (arith, u.back i);
      owned = λ v. ground (arith, u.owned v, u.owned w);
      queue = λ v. ground (arith, u.queue v, has-erase v w s.complete_list u.queue_distinct);
      queue_distinct = erase-Distinct w s.complete_list u.queue_distinct;
      cancelled = λ i. ground (arith, u.cancelled i, u.back i);
    })
  ]

  take_reused :
      (i w : ℕ)
      → (s.irps i).wrap_urb ≡ 0
      → has w s.wrap_urb_list ≡ true
      → is_free (s.urbs w).state ≡ true
      → IsUrbs (owned_by s w i (cleared (s.urbs w)))
  take_reused i w idle on fr = record {
    distinct = u.distinct;
    count = u.count;
    real = u.real;
    listed = λ j. ground (arith, u.listed j);
    active = λ j. ground (arith, u.active j);
    back = λ j. ground (arith, u.back j, u.active j);
    owned = λ v. ground (arith, u.owned v, u.real);
    queue = λ v. ground (arith, u.queue v);
    queue_distinct = u.queue_distinct;
    cancelled = λ j. ground (arith, u.cancelled j, u.active j, u.real);
  }

  take_new :
      (i fresh : ℕ) (new : WrapUrb)
      → (s.irps i).wrap_urb ≡ 0
      → fresh ≢ 0
      → has fresh s.wrap_urb_list ≡ false
      → new.state ≡ allocated
      → IsUrbs (
          owned_by
            (record s {
              wrap_urb_list = s.wrap_urb_list ++ fresh ∷ [];
              num_alloc_urbs = s.num_alloc_urbs + 1;
            })
            fresh
            i
            new)
  take_new i fresh new idle n off st = record {
    distinct = append-Distinct fresh s.wrap_urb_list u.distinct off;
    count = omega (arith, u.count, length-append s.wrap_urb_list (fresh ∷ []));
    real = ground (arith, u.real, has-append 0 s.wrap_urb_list (fresh ∷ []));
    listed = λ j. ground (
      arith,
      u.listed j,
      has-append (s.irps j).wrap_urb s.wrap_urb_list (fresh ∷ []),
      has-append fresh s.wrap_urb_list (fresh ∷ []),
    );
    active = λ j. ground (arith, u.active j, st);
    back = λ j. ground (arith, u.back j, u.listed j);
    owned = λ v. ground (arith, u.owned v, has-append v s.wrap_urb_list (fresh ∷ []));
    queue = λ v. ground (arith, u.queue v, has-append v s.wrap_urb_list (fresh ∷ []), st);
    queue_distinct = u.queue_distinct;
    cancelled = λ j. ground (arith, u.cancelled j, u.listed j, st);
  }

  -- An IRP without a wrap_urb takes one; `fresh` is NULL or memory that is not in the list.
  pub take_IsUrbs :
      (i fresh : ℕ)
      → (s.irps i).wrap_urb ≡ 0
      → has fresh s.wrap_urb_list ≡ false
      → IsUrbs (take_urb s i fresh).0
  unfolding take_urb
  take_IsUrbs i fresh idle off =
      either s.hw_disabled _ _ (λ _. u)
        λ _.
          either (find_free s.urbs s.wrap_urb_list == 0) _ _
            (λ _.
              either (fresh == 0) _ _ (λ _. u)
                λ e.
                  take_new i fresh (cleared (record (s.urbs fresh) { copy_buffer = false })) idle
                    (λ z. ground arith) off refl)
            λ e.
              let (on, fr) = find_free-free s.urbs s.wrap_urb_list (λ z. ground arith) in
              take_reused i (find_free s.urbs s.wrap_urb_list) idle on fr

  -- The two lists, the owners, and in which states the wrap_urbs are.
  pub frame_IsUrbs :
      (t : Urbs)
      → t.wrap_urb_list ≡ s.wrap_urb_list
      → t.num_alloc_urbs ≡ s.num_alloc_urbs
      → t.complete_list ≡ s.complete_list
      → ((i : ℕ) → (t.irps i).wrap_urb ≡ (s.irps i).wrap_urb)
      → ((i : ℕ) → (t.irps i).cancel_routine ≡ (s.irps i).cancel_routine)
      → ((w : ℕ) → (t.urbs w).irp ≡ (s.urbs w).irp)
      → ((w : ℕ) → is_active (t.urbs w).state ≡ is_active (s.urbs w).state)
      → ((w : ℕ) → is_completed (t.urbs w).state ≡ is_completed (s.urbs w).state)
      → IsUrbs t
  frame_IsUrbs t l n q wu cr ir ac co = record {
    distinct = rw l u.distinct;
    count = rw (l, n) u.count;
    real = rw l u.real;
    listed = λ i. rw (l, wu i) (u.listed i);
    active = λ i. rw (wu i, ac (s.irps i).wrap_urb) (u.active i);
    back = λ i. rw (wu i, ir (s.irps i).wrap_urb) (u.back i);
    owned = λ w. rw (l, ac w, ir w, wu (s.urbs w).irp) (u.owned w);
    queue = λ w. rw (q, l, co w) (u.queue w);
    queue_distinct = rw q u.queue_distinct;
    cancelled = λ i. rw (cr i, wu i, co (s.irps i).wrap_urb) (u.cancelled i);
  }
