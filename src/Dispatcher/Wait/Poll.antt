-- ===== src/Dispatcher/Wait/Poll.antt =====
-- driver/ntoskernel.c, KeWaitForMultipleObjects: a wait that is refused or that only polls.
use ndiswrapper.Base.{
  status_timeout, status_invalid_parameter, ℕ, suc, ◌+◌, ◌≤◌, ◌<◌, ◌≡◌, refl, ◌∙◌, Bool, true,
  false, Option, some, List, [], ◌∷◌, ◌++◌, arith, length, if◌then◌else◌, update, update_same, ℤ,
  pos, Bool-cases, inl, inr, ◌⊎◌, ap,
}
use ndiswrapper.Dispatcher.{Object, Kernel, grab_object}
use ndiswrapper.Dispatcher.Wait.{
  WaitType, wait_any, wait_all, grabbed, counted, check_objects, after_scan, wait_begin, returned,
}

-- An object that is only looked at, or that cannot be taken, stays as it is.
pub grab_fails :
    (o : Object) (t : ℕ) (g : Bool) → (grab_object o t g).1 ≡ false → (grab_object o t g).0 ≡ o
unfolding grab_object
grab_fails o t g h = ground arith

pub grab_looks : (o : Object) (t : ℕ) → (grab_object o t false).0 ≡ o
unfolding grab_object
grab_looks o t = ground arith

same_kernel :
    (k : Kernel) (dh : ℕ) (o : Object)
    → o ≡ k.objects dh
    → record k { objects = update k.objects dh o } ≡ k
same_kernel k dh o e = rw e (ap (λ f. record k { objects = f }) (update_same k.objects dh))

-- The number of objects in the list that the thread cannot take.
abbrev pub blocked : Kernel → ℕ → List ℕ → ℕ
blocked k current [] = 0
blocked k current (dh ∷ dhs) =
    (if (grab_object (k.objects dh) current true).1 then 0 else 1) + blocked k current dhs

grab_answer : (o : Object) (t : ℕ) (g : Bool) → (grab_object o t g).1 ≡ (grab_object o t true).1
unfolding grab_object
grab_answer o t g = ground arith

-- The first loop of WaitAll changes nothing and counts the objects that cannot be taken.
pub check_all :
    (dhs : List ℕ) (k : Kernel) (current i n : ℕ)
    → check_objects k current wait_all dhs i n ≡ counted k (n + blocked k current dhs)
unfolding check_objects
check_all [] k current i n = ap (counted k) (omega arith)
check_all (dh ∷ dhs) k current i n = elim (Bool-cases (grab_object (k.objects dh) current true).1) [
  | inl got ↦
      rw
        (
          check_objects,
          grab_answer (k.objects dh) current false,
          got,
          grab_looks (k.objects dh) current,
          same_kernel k dh (k.objects dh) refl,
          check_all dhs k current (suc i) n,
        )
        (ap (counted k) (omega arith))
  | inr not_got ↦
      rw
        (
          check_objects,
          grab_answer (k.objects dh) current false,
          not_got,
          grab_looks (k.objects dh) current,
          same_kernel k dh (k.objects dh) refl,
          check_all dhs k current (suc i) (suc n),
        )
        (ap (counted k) (omega arith))
]

-- Under WaitAny the loop passes over objects that cannot be taken, and changes none of them.
pub check_any_blocked :
    (dh : ℕ) (dhs : List ℕ) (k : Kernel) (current i n : ℕ)
    → (grab_object (k.objects dh) current true).1 ≡ false
    → check_objects k current wait_any (dh ∷ dhs) i n
      ≡ check_objects k current wait_any dhs (suc i) (suc n)
unfolding check_objects
check_any_blocked dh dhs k current i n h = rw (
  check_objects,
  h,
  grab_fails (k.objects dh) current true h,
  same_kernel k dh (k.objects dh) refl,
)

-- A WaitAll for at most three objects with timeout 0 that finds an object it cannot take returns STATUS_TIMEOUT, and leaves
-- every object and the rest of the kernel as it was, also the objects that it could have taken.
pub poll_all_times_out :
    (k : Kernel) (current : ℕ) (objects : List ℕ) (array : Bool) (wb : ℕ → ℕ) (wait_done irql : ℕ)
    → length objects ≤ 3
    → 0 < blocked k current objects
    → wait_begin k current wait_all objects array wb wait_done irql (some (pos 0))
      ≡ (k, returned status_timeout)
unfolding wait_begin after_scan
poll_all_times_out k current objects array wb wait_done irql few h =
    rw (check_all objects k current 0 0) (ground arith)

-- Too many objects for the wait blocks at hand: the wait is refused and changes nothing.
pub wait_refused :
    (k : Kernel) (current : ℕ) (ty : WaitType) (objects : List ℕ) (array : Bool) (wb : ℕ → ℕ)
    (wait_done irql : ℕ) (timeout : Option ℤ)
    → (64 < length objects) ⊎ ((3 < length objects) × (array ≡ false))
    → wait_begin k current ty objects array wb wait_done irql timeout
      ≡ (k, returned status_invalid_parameter)
unfolding wait_begin
wait_refused k current ty objects array wb wait_done irql timeout h = ground arith

abbrev took : Kernel → ℕ → ℕ → Kernel
took k current dh = record k {
  objects = update k.objects dh (grab_object (k.objects dh) current true).0;
}

check_any_hit :
    (dh : ℕ) (post : List ℕ) (k : Kernel) (current i n : ℕ)
    → (grab_object (k.objects dh) current true).1 ≡ true
    → check_objects k current wait_any (dh ∷ post) i n ≡ grabbed (took k current dh) i
unfolding check_objects
check_any_hit dh post k current i n h = rw h

-- The length of a part of the list is a bound on what is blocked in it.
blocked-le : (dhs : List ℕ) (k : Kernel) (current : ℕ) → blocked k current dhs ≤ length dhs
blocked-le [] k current = omega arith
blocked-le (dh ∷ dhs) k current = ground (arith, blocked-le dhs k current)

blocked_head :
    (dh : ℕ) (dhs : List ℕ) (k : Kernel) (current : ℕ)
    → blocked k current (dh ∷ dhs) ≡ suc (length dhs)
    → ((grab_object (k.objects dh) current true).1 ≡ false) × (blocked k current dhs ≡ length dhs)
blocked_head dh dhs k current e = ground (arith, blocked-le dhs k current)

check_any :
    (pre : List ℕ) (dh : ℕ) (post : List ℕ) (k : Kernel) (current i n j : ℕ)
    → i + length pre ≡ j
    → blocked k current pre ≡ length pre
    → (grab_object (k.objects dh) current true).1 ≡ true
    → check_objects k current wait_any (pre ++ dh ∷ post) i n ≡ grabbed (took k current dh) j
check_any [] dh post k current i n j e b h =
    check_any_hit dh post k current i n h ∙ ap (grabbed (took k current dh)) (omega arith)
check_any (p ∷ pre) dh post k current i n j e b h =
    let (miss, rest) = blocked_head p pre k current b in
    check_any_blocked p (pre ++ dh ∷ post) k current i n miss
    ∙ check_any pre dh post k current (suc i) (suc n) j (omega arith) rest h

-- A WaitAny for at most three objects in which some object can be taken returns the index of the first such object, whatever
-- the timeout and the IRQL. It takes that object for the thread and changes nothing else.
pub wait_any_takes_first :
    (k : Kernel) (current : ℕ) (pre : List ℕ) (dh : ℕ) (post : List ℕ) (array : Bool) (wb : ℕ → ℕ)
    (wait_done irql : ℕ) (timeout : Option ℤ)
    → length (pre ++ dh ∷ post) ≤ 3
    → blocked k current pre ≡ length pre
    → (grab_object (k.objects dh) current true).1 ≡ true
    → wait_begin k current wait_any (pre ++ dh ∷ post) array wb wait_done irql timeout ≡ (
      record k { objects = update k.objects dh (grab_object (k.objects dh) current true).0 },
      returned (length pre),
    )
unfolding wait_begin after_scan
wait_any_takes_first k current pre dh post array wb wait_done irql timeout few b h =
    rw (check_any pre dh post k current 0 0 (length pre) (omega arith) b h) (ground arith)
