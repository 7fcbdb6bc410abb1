-- ===== src/BufferList/Killed.antt =====
-- What a killed buffer leaves (kill_buffer of src/buffer.c).
use zile.Prelude.{
  ℕ, ◌<◌, ◌≡◌, refl, ap, ◌∙◌, List, [], ◌∷◌, none, some, false, ◌==◌, arith, if◌then◌else◌,
  Bool-cases, Option-cases, inl, inr, some_inj, none≢some, >>=-eq-some, if-eq-some, ==→≡, ≢→==,
}
use zile.Buffer.{Buffer}
use zile.Session.{
  Session, Window, set_current_buffer, put_buffer, buffer_at, change_buffer, change_window,
  window_at,
}
use zile.Window.{window_resync}
use zile.BufferList.{
  kill_buffer, heir, next_buffer, retarget, remove_buffer, resync_all, show_all,
  create_scratch_buffer, create_auto_buffer, buffer_new,
}

-- No buffer of the chain has the address.
abbrev pub Gone : ℕ → List Buffer → Type 0
Gone a [] = Unit {0}
Gone a (b ∷ bs) = ((b.address == a) ≡ false) × Gone a bs

-- The buffers have different addresses, which are in use.
abbrev pub Chained : ℕ → List Buffer → Type 0
Chained fresh [] = Unit {0}
Chained fresh (b ∷ bs) = (b.address < fresh) × Gone b.address bs × Chained fresh bs

-- No window shows the buffer at the address.
abbrev pub Unseen : ℕ → List Window → Type 0
Unseen a [] = Unit {0}
Unseen a (w ∷ ws) = ((w.bp == a) ≡ false) × Unseen a ws

retarget-Unseen :
    (a next : ℕ) (ws : List Window) → (next == a) ≡ false → Unseen a (retarget a next ws)
unfolding retarget
retarget-Unseen a next [] h = tt
retarget-Unseen a next (w ∷ ws) h = elim (Bool-cases (w.bp == a)) [
  | inl p ↦ rw p (h, retarget-Unseen a next ws h)
  | inr p ↦ rw p (p, retarget-Unseen a next ws h)
]

show_all-Unseen :
    (a next : ℕ) (ws : List Window) → (next == a) ≡ false → Unseen a (show_all next ws)
unfolding show_all
show_all-Unseen a next [] h = tt
show_all-Unseen a next (w ∷ ws) h = (h, show_all-Unseen a next ws h)

change_window-Unseen :
    (a b : ℕ) (f : Window → Window) (ws : List Window)
    → ((w : Window) → (f w).bp ≡ w.bp)
    → Unseen a ws
    → Unseen a (change_window b f ws)
unfolding change_window
change_window-Unseen a b f [] same h = tt
change_window-Unseen a b f (w ∷ ws) same (h, hs) = elim (Bool-cases (w.address == b)) [
  | inl p ↦ rw (p, same w) (h, change_window-Unseen a b f ws same hs)
  | inr p ↦ rw p (h, change_window-Unseen a b f ws same hs)
]

-- The buffer is gone from the chain, and no window shows it.
abbrev pub IsKilled : ℕ → Session → Type 0
IsKilled a s = Gone a s.buffers × Unseen a s.windows

window_resync-IsKilled :
    (a b : ℕ) (s s' : Session) → window_resync b s ≡ some s' → IsKilled a s → IsKilled a s'
unfolding window_resync
window_resync-IsKilled a b s s' h (gone, unseen) =
    let (w, e1, h1) = >>=-eq-some (window_at s.windows b) _ h in
    let (c, e2, h2) = >>=-eq-some (buffer_at s w.bp) _ h1 in
    rw (← some_inj h2) (gone, change_window-Unseen a b _ s.windows (λ v. refl) unseen)

resync_all-IsKilled :
    (a next : ℕ) (ws : List Window) (s s' : Session)
    → resync_all next ws s ≡ some s'
    → IsKilled a s
    → IsKilled a s'
unfolding resync_all
resync_all-IsKilled a next [] s s' h k = rw (← some_inj h) k
resync_all-IsKilled a next (w ∷ ws) s s' h k =
    let (s1, e1, h1) =
      >>=-eq-some (if w.bp == next then window_resync w.address s else some s) _ h in
    resync_all-IsKilled a next ws s1 s' h1 (
      if-eq-some (w.bp == next) _ _ e1 (λ p c. window_resync-IsKilled a w.address s s1 c k)
        (λ p c. rw (← some_inj c) k))

Gone-apart : (fresh a : ℕ) (bs : List Buffer) → Chained fresh bs → Gone a (remove_buffer a bs)
unfolding remove_buffer
Gone-apart fresh a [] h = tt
Gone-apart fresh a (b ∷ bs) (lt, gone, h) = elim (Bool-cases (b.address == a)) [
  | inl p ↦ rw p (rw (==→≡ _ _ p) at gone)
  | inr p ↦ rw p (p, Gone-apart fresh a bs h)
]

put_buffer-Gone : (a : ℕ) (c : Buffer) (bs : List Buffer) → Gone a bs → Gone a (put_buffer c bs)
unfolding put_buffer
put_buffer-Gone a c [] h = tt
put_buffer-Gone a c (b ∷ bs) (h, hs) = elim (Bool-cases (b.address == c.address)) [
  | inl p ↦ rw p (rw (← ==→≡ _ _ p) h, put_buffer-Gone a c bs hs)
  | inr p ↦ rw p (h, put_buffer-Gone a c bs hs)
]

put_buffer-Chained :
    (fresh : ℕ) (c : Buffer) (bs : List Buffer) → Chained fresh bs → Chained fresh (put_buffer c bs)
unfolding put_buffer
put_buffer-Chained fresh c [] h = tt
put_buffer-Chained fresh c (b ∷ bs) (lt, gone, h) = elim (Bool-cases (b.address == c.address)) [
  | inl p ↦
      let e = ==→≡ _ _ p in
      rw p (
        rw (← e) lt,
        rw (← e) (put_buffer-Gone b.address c bs gone),
        put_buffer-Chained fresh c bs h,
      )
  | inr p ↦ rw p (lt, put_buffer-Gone b.address c bs gone, put_buffer-Chained fresh c bs h)
]

set_current_buffer-kept :
    (fresh a : ℕ) (s s' : Session)
    → set_current_buffer a s ≡ some s'
    → (s.windows ≡ s'.windows) × (put_buffer s.ed.cur_bp s.buffers ≡ s'.buffers)
unfolding set_current_buffer
set_current_buffer-kept fresh a s s' h =
    let (b, e1, h1) = >>=-eq-some (buffer_at s a) _ h in
    let e = some_inj h1 in (ap (λ (t : Session). t.windows) e, ap (λ (t : Session). t.buffers) e)

next_buffer-other :
    (fresh a n : ℕ) (bs : List Buffer)
    → Chained fresh bs
    → next_buffer a bs ≡ some n
    → (n == a) ≡ false
unfolding next_buffer
next_buffer-other fresh a n [] h e = cc
next_buffer-other fresh a n (b ∷ []) h e = cc
next_buffer-other fresh a n (b ∷ c ∷ bs) (lt, gone, h) e = elim (Bool-cases (b.address == a)) [
  | inl p ↦ rw (← some_inj (rw p at e), ← ==→≡ _ _ p) gone.0
  | inr p ↦ next_buffer-other fresh a n (c ∷ bs) h (rw p at e)
]

heir-other :
    (fresh a n : ℕ) (bs : List Buffer) → Chained fresh bs → heir a bs ≡ some n → (n == a) ≡ false
unfolding heir
heir-other fresh a n [] h e = absurd (none≢some e)
heir-other fresh a n (b ∷ bs) h e = elim (Option-cases (next_buffer a (b ∷ bs))) [
  | inr (m, q) ↦ next_buffer-other fresh a n (b ∷ bs) h (q ∙ (rw (q, heir) at e))
  | inl q ↦
      if-eq-some (b.address == a) none (some b.address) (rw (q, heir) at e)
        (λ p c. absurd (none≢some c)) (λ p c. rw (← some_inj c) p)
]

change_buffer-Gone :
    (x a : ℕ) (f : Buffer → Buffer) (s s' : Session)
    → change_buffer a f s ≡ some s'
    → Gone x s.buffers
    → Gone x s'.buffers
unfolding change_buffer
change_buffer-Gone x a f s s' h gone =
    let (b, e1, h1) = >>=-eq-some (buffer_at s a) _ h in
    elim (Bool-cases (s.ed.cur_bp.address == a)) [
      | inl p ↦ rw (← some_inj (rw p at h1)) gone
      | inr p ↦ rw (← some_inj (rw p at h1)) (put_buffer-Gone x (f b) s.buffers gone)
    ]

-- The new buffer's address was not in use.
create_scratch_buffer-Gone :
    (a new : ℕ) (s s' : Session)
    → create_scratch_buffer s ≡ some (s', new)
    → a < s.ed.fresh
    → Gone a s.buffers
    → Gone a s'.buffers × ((new == a) ≡ false)
unfolding create_scratch_buffer create_auto_buffer buffer_new
create_scratch_buffer-Gone a new s s' h lt gone =
    let (s2, e1, h1) = >>=-eq-some _ _ h in
    let e : (s2, s.ed.fresh) ≡ (s', new) = some_inj h1 in
    let away : (s.ed.fresh == a) ≡ false = ≢→== _ _ (λ e. omega arith) in
    (
      rw (← ap (λ q. q.0) e) (change_buffer-Gone a s.ed.fresh _ _ s2 e1 (away, gone)),
      rw (← ap (λ q. q.1) e) away,
    )

-- Where the buffers of the chain have different addresses that are in use, a buffer that has been
-- killed is not in the chain any more, and no window shows it, whether others are left or the
-- scratch buffer is made anew.
pub kill_buffer-IsKilled :
    (a : ℕ) (s s' : Session)
    → kill_buffer a s ≡ some s'
    → a < s.ed.fresh
    → Chained s.ed.fresh s.buffers
    → IsKilled a s'
unfolding kill_buffer
kill_buffer-IsKilled a s s' h lt chained = elim (Option-cases (heir a s.buffers)) [
  | inr (next, p) ↦
      let away = heir-other s.ed.fresh a next s.buffers chained p in
      let shown : Session = record s { windows = retarget a next s.windows } in
      let unseen = retarget-Unseen a next s.windows away in
      let (s1, e1, h1) = >>=-eq-some _ _ (rw (p, kill_buffer) at h) in
      resync_all-IsKilled a next _ _ s' h1 (
        if-eq-some (s.ed.cur_bp.address == a) _ _ e1
          (λ q c.
            (let (same, list) = set_current_buffer-kept s.ed.fresh next shown s1 c in
              (
                Gone-apart s.ed.fresh a s1.buffers
                    (rw (← list) (put_buffer-Chained s.ed.fresh s.ed.cur_bp s.buffers chained)),
                rw (← same) unseen,
              )))
          (λ q c. rw (← some_inj c) (Gone-apart s.ed.fresh a s.buffers chained, unseen)))
  | inl p ↦
      let emptied : Session = record s {
        windows = retarget a a s.windows;
        buffers = remove_buffer a s.buffers;
      } in
      let (made, e1, h1) =
        >>=-eq-some (create_scratch_buffer emptied) _ (rw (p, kill_buffer) at h) in
      let (gone, away) =
        create_scratch_buffer-Gone a made.1 emptied made.0 e1 lt
          (Gone-apart s.ed.fresh a s.buffers chained) in
      let (s2, e2, h2) = >>=-eq-some (set_current_buffer made.1 made.0) _ h1 in
      let (same, list) = set_current_buffer-kept s.ed.fresh made.1 made.0 s2 e2 in
      resync_all-IsKilled a made.1 _ _ s' h2 (
        rw (← list) (put_buffer-Gone a made.0.ed.cur_bp made.0.buffers gone),
        show_all-Unseen a made.1 s2.windows away,
      )
]
