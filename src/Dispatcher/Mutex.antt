-- ===== src/Dispatcher/Mutex.antt =====
-- driver/ntoskernel.c: mutexes. A mutex is free with state 1 and no owner; the owner may take it
-- again, and each take lowers the state by one.
use ndiswrapper.Base.{
  ℕ, suc, ◌+◌, ◌<◌, ◌^◌, ◌≡◌, refl, sym, ◌∙◌, ◌≢◌, true, false, List, [], ◌∷◌, ◌++◌, arith, All,
  pos, if◌then◌else◌, update, ◌==◌, neg_part, pos_part,
}
use ndiswrapper.Dispatcher.{
  mutex_object, Object, Kernel, grab_object, accept, offer, signal_loop, object_signaled, set_state,
  ke_release_mutex, status_mutant_not_owned,
}
use ndiswrapper.Dispatcher.Counting.{accept_object, accept_woken, accept_thread}

-- The mutex is held `depth` times by thread `t`, or is free where `depth` is 0.
pub record IsHeld (o : Object) (t depth : ℕ) : Type 0 where
  pub kind : o.kind ≡ mutex_object
  pub owner : o.owner_thread ≡ (if depth == 0 then 0 else t)
  pub state : (pos_part o.signal_state + depth ≡ 1 + neg_part o.signal_state)
  pub bound : depth < 2 ^ 31

-- A thread takes a free mutex, or one that it holds already, once more.
pub grab_mutex :
    (o : Object) (t depth : ℕ)
    → t ≢ 0
    → IsHeld o t depth
    → depth + 1 < 2 ^ 31
    → ((grab_object o t true).1 ≡ true) × IsHeld (grab_object o t true).0 t (depth + 1)
unfolding grab_object
grab_mutex o t depth ne h fits = ground arith

-- No other thread can take a mutex that is held.
pub grab_excludes :
    (o : Object) (owner t depth : ℕ)
    → IsHeld o owner (suc depth)
    → owner ≢ 0
    → t ≢ owner
    → grab_object o t true ≡ (o, false)
unfolding grab_object
grab_excludes o owner t depth h ne other = ground arith

-- Only the thread that holds a mutex can release it: any other gets STATUS_MUTANT_NOT_OWNED and
-- changes nothing.
pub release_not_owned :
    (k : Kernel) (m current : ℕ)
    → (k.objects m).owner_thread ≢ current
    → ke_release_mutex k m current ≡ (k, status_mutant_not_owned)
unfolding ke_release_mutex
release_not_owned k m current h = ground arith

-- A release that is not the last one lowers the depth by one, wakes nobody and keeps the queue.
pub release_nested :
    (k : Kernel) (m t depth : ℕ)
    → IsHeld (k.objects m) t (suc (suc depth))
    → let k' = (ke_release_mutex k m t).0 in
      IsHeld (k'.objects m) t (suc depth)
      × (k'.woken ≡ k.woken)
      × ((k'.objects m).wait_blocks ≡ (k.objects m).wait_blocks)
unfolding ke_release_mutex
release_nested k m t depth h = ground arith

grab_queue : (o : Object) (t : ℕ) → (grab_object o t true).0.wait_blocks ≡ o.wait_blocks
unfolding grab_object
grab_queue o t = ground arith

offer_excluded :
    (k : Kernel) (m b t : ℕ)
    → IsHeld (k.objects m) t 1
    → t ≢ 0
    → (k.blocks b).thread ≢ t
    → offer k m b ≡ k
unfolding offer
offer_excluded k m b t h ne other =
    rw (grab_excludes (k.objects m) t (k.blocks b).thread 0 h ne other)

signal_loop_excluded :
    (bs : List ℕ) (k : Kernel) (m t : ℕ)
    → IsHeld (k.objects m) t 1
    → t ≢ 0
    → All (λ b. (k.blocks b).thread ≢ t) bs
    → signal_loop k m bs ≡ k
unfolding signal_loop
signal_loop_excluded [] k m t h ne others = refl
signal_loop_excluded (b ∷ bs) k m t h ne others =
    rw (signal_loop, offer_excluded k m b t h ne others.0)
      (signal_loop_excluded bs k m t h ne others.1)

All-map :
    (f g : ℕ → ℕ) (t : ℕ) (bs : List ℕ)
    → ((b : ℕ) → g b ≡ f b)
    → All (λ b. f b ≢ t) bs
    → All (λ b. g b ≢ t) bs
All-map f g t [] e h = tt
All-map f g t (b ∷ bs) e h = (λ p. h.0 (sym (e b) ∙ p), All-map f g t bs e h.1)

-- The kernel in which the mutex has just become free.
abbrev freed : Kernel → ℕ → Kernel
freed k m =
    let k' = set_state k m (pos 1) in
    record k' { objects = update k'.objects m (record (k'.objects m) { owner_thread = 0 }) }

freed_at :
    (k : Kernel) (m : ℕ)
    → (freed k m).objects m ≡ record (k.objects m) { signal_state = pos 1; owner_thread = 0 }
freed_at k m = ground arith

held_once : (o : Object) (t : ℕ) → IsHeld o t 1 → o.signal_state ≡ pos 0
held_once o t h = ground arith

==_refl : (t : ℕ) → (t == t) ≡ true
==_refl t = ground arith

release_last :
    (k : Kernel) (m t : ℕ)
    → IsHeld (k.objects m) t 1
    → ke_release_mutex k m t ≡ (object_signaled (freed k m) m, pos 0)
unfolding ke_release_mutex
release_last k m t h = rw (held_once (k.objects m) t h, h.owner, ==_refl t)

freed-IsHeld :
    (k : Kernel) (m t : ℕ) → IsHeld (k.objects m) t 1 → (u : ℕ) → IsHeld ((freed k m).objects m) u 0
freed-IsHeld k m t h u = rw (freed_at k m) (ground arith)

offer_free :
    (k : Kernel) (m b t : ℕ)
    → t ≢ 0
    → IsHeld (k.objects m) t 0
    → (k.blocks b).thread ≡ t
    → (o : Object) × IsHeld o t 1
      × (o.wait_blocks ≡ (k.objects m).wait_blocks)
      × (offer k m b ≡ accept k m b o)
unfolding offer
offer_free k m b t ne h e =
    let g = grab_mutex (k.objects m) t 0 ne h (omega arith) in
    ((grab_object (k.objects m) t true).0, g.1, grab_queue (k.objects m) t, rw (e, g.0))

IsHeld-blocks :
    (o : Object) (t n : ℕ) (ws : List ℕ) → IsHeld o t n → IsHeld (record o { wait_blocks = ws }) t n
IsHeld-blocks o t n ws h = ground arith

hand_over :
    (k : Kernel) (m b t : ℕ) (bs : List ℕ)
    → t ≢ 0
    → IsHeld (k.objects m) t 0
    → (k.objects m).wait_blocks ≡ b ∷ bs
    → (k.blocks b).thread ≡ t
    → All (λ x. (k.blocks x).thread ≢ t) bs
    → let k' = signal_loop k m (b ∷ bs) in
      IsHeld (k'.objects m) t 1 × ((k'.objects m).wait_blocks ≡ bs) × (k'.woken ≡ k.woken ++ t ∷ [])
unfolding signal_loop
hand_over k m b t bs ne h w e others =
    let (o, held, queue, off) = offer_free k m b t ne h e in
    let obj = accept_object k m b bs o (queue ∙ w) in
    let held' : IsHeld ((accept k m b o).objects m) t 1 = rw obj (IsHeld-blocks o t 1 bs held) in
    let others' =
      All-map (λ x. (k.blocks x).thread) (λ x. ((accept k m b o).blocks x).thread) t bs
        (accept_thread k m b o) others in
    rw (signal_loop, off, signal_loop_excluded bs (accept k m b o) m t held' ne others')
      (held', rw obj, accept_woken k m b bs o (queue ∙ w) ∙ rw e)

-- When the owner makes its last release, the thread that waits longest is woken and holds the mutex
-- once, and the other waiters stay queued, if they are other threads.
pub release_hands_over :
    (k : Kernel) (m t u b : ℕ) (bs : List ℕ)
    → IsHeld (k.objects m) t 1
    → u ≢ 0
    → (k.objects m).wait_blocks ≡ b ∷ bs
    → (k.blocks b).thread ≡ u
    → All (λ x. (k.blocks x).thread ≢ u) bs
    → let k' = (ke_release_mutex k m t).0 in
      IsHeld (k'.objects m) u 1 × ((k'.objects m).wait_blocks ≡ bs) × (k'.woken ≡ k.woken ++ u ∷ [])
unfolding object_signaled
release_hands_over k m t u b bs h ne w e others =
    let h' = freed-IsHeld k m t h u in
    let w' : ((freed k m).objects m).wait_blocks ≡ b ∷ bs = rw (freed_at k m) w in
    rw (release_last k m t h, object_signaled, w')
      (hand_over (freed k m) m b u bs ne h' w' e others)

-- With nobody waiting the last release leaves the mutex free and wakes nobody.
pub release_frees :
    (k : Kernel) (m t u : ℕ)
    → IsHeld (k.objects m) t 1
    → (k.objects m).wait_blocks ≡ []
    → let k' = (ke_release_mutex k m t).0 in
      IsHeld (k'.objects m) u 0 × ((k'.objects m).wait_blocks ≡ []) × (k'.woken ≡ k.woken)
unfolding object_signaled signal_loop
release_frees k m t u h w =
    let w' : ((freed k m).objects m).wait_blocks ≡ [] = rw (freed_at k m) w in
    rw (release_last k m t h, object_signaled, w') (freed-IsHeld k m t h u, w', refl)
