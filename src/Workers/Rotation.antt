-- ===== src/Workers/Rotation.antt =====
-- dns_forwarder/core/multiprocess/pool.py: whose turn it is in `_next_worker`.
use native.Mathlib.Nat.{mod-lt}
use python_smartdns.Prelude.{
  ℕ, zero, suc, ◌+◌, ◌-◌, ◌%◌, ◌≤◌, ◌<◌, ltb, ltb→lt, Bool-cases, some, List, [], ◌∷◌, length,
  get_elem?, drop, rotate, get_elem?-cons_drop, get_elem?-rotate_below, get_elem?-rotate_above,
  length-rotate, drop-length, ◌≡◌, refl, sym, ap, ◌∙◌, arith, inl, inr, if◌then◌else◌,
}
use python_smartdns.Outcome.{runtime_error, Outcome, done, raised}
use python_smartdns.Workers.{WorkerHandle, is_done, Pool, scan_workers, pick_worker, next_worker}

-- The first worker that runs.
abbrev pub first_running : List WorkerHandle → Outcome WorkerHandle
first_running [] = raised (runtime_error "没有可用 worker")
first_running (w ∷ ws) = if is_done w.future then first_running ws else done w

mod_below : (s o n : ℕ) → s % n + o < n → (s + o) % n ≡ s % n + o
mod_below s o n h = grind arith

mod_above : (s o n : ℕ) → n ≤ s % n + o → o < n → (s + o) % n ≡ s % n + o - n
mod_above s o n h k = grind arith

module _ (ws : List WorkerHandle) (s : ℕ) where
  abbrev turn : ℕ → List WorkerHandle
  turn offset = drop offset (rotate (s % length ws) ws)

  get_elem?-turn :
      (offset : ℕ)
      → offset < length ws
      → get_elem? ws ((s + offset) % length ws) ≡ get_elem? (rotate (s % length ws) ws) offset
  get_elem?-turn offset h =
      let n : ℕ = length ws in
      let b : s % n < n = mod-lt s (omega arith) in
      elim (Bool-cases (ltb (s % n + offset) n)) [
        | inl e ↦
            let l = ltb→lt (s % n + offset) n e in
            ap (get_elem? ws) (mod_below s offset n l)
            ∙ sym (get_elem?-rotate_below (s % n) ws offset l)
        | inr e ↦
            let l : n ≤ s % n + offset = ground (arith, e) in
            ap (get_elem? ws) (mod_above s offset n l h)
            ∙ sym (get_elem?-rotate_above (s % n) ws offset l h (omega arith))
      ]

  scan_workers-suc :
      (offset left : ℕ) (w : WorkerHandle)
      → get_elem? ws ((s + offset) % length ws) ≡ some w
      → scan_workers ws s offset (suc left)
        ≡ (if is_done w.future then scan_workers ws s (suc offset) left else done w)
  unfolding scan_workers
  scan_workers-suc offset left w h = rw (h, scan_workers) refl

  scan_workers-eq :
      (offset left : ℕ)
      → offset + left ≡ length ws
      → 0 < length ws
      → scan_workers ws s offset left ≡ first_running (turn offset)
  unfolding scan_workers
  scan_workers-eq offset zero h b =
      let len = length-rotate (s % length ws) ws (omega (arith, mod-lt s b)) in
      let e : offset ≡ length (rotate (s % length ws) ws) = omega (arith, len) in
      let d : turn offset ≡ [] = rw e (drop-length (rotate (s % length ws) ws)) in rw d refl
  scan_workers-eq offset (suc left) h b =
      let k : ℕ = s % length ws in
      let o : offset < length ws = omega arith in
      let len = length-rotate k ws (omega (arith, mod-lt s b)) in
      let (w, g, d) = get_elem?-cons_drop (rotate k ws) offset (omega (arith, len)) in
      let ih = scan_workers-eq (suc offset) left (omega arith) b in
      scan_workers-suc offset left w (get_elem?-turn offset o ∙ g) ∙ rw (ih, d) refl

pick_worker-eq :
    (ws : List WorkerHandle) (p : Pool)
    → 0 < length ws
    → pick_worker ws p ≡ (
      first_running (rotate (p.worker_counter % length ws) ws),
      record p { worker_counter = suc p.worker_counter },
    )
unfolding pick_worker
pick_worker-eq [] p h = absurd (omega arith)
pick_worker-eq (w ∷ ws) p h =
    ap (λ r. (r, record p { worker_counter = suc p.worker_counter }))
      (scan_workers-eq (w ∷ ws) p.worker_counter 0 (length (w ∷ ws)) (omega arith) h)

-- If the pool has workers, the next worker is the first one that runs, from the one whose turn it
-- is on and round to the one before it, and the turn moves on by one, also where no worker runs:
-- then, and only then, it raises. The index is never out of range.
pub next_worker-eq :
    (p : Pool)
    → 0 < length p.workers
    → next_worker p ≡ (
      first_running (rotate (p.worker_counter % length p.workers) p.workers),
      record p { worker_counter = suc p.worker_counter },
    )
unfolding next_worker
next_worker-eq p h = pick_worker-eq p.workers p h
