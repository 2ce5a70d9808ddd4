-- ===== src/LoopDetection/Window.antt =====
-- `record` and `reset` of policy.py: the history against the log of all calls ever recorded.
use exoclaw_plugins.Prelude.{
  ℕ, zero, suc, ◌-◌, ◌≤◌, ◌<◌, String, ◌≡◌, refl, sym, ap, ◌∙◌, some, List, [], ◌∷◌, ◌++◌, map,
  arith, ltb, if◌then◌else◌, length, drop, last_slice, length-append, length-drop, drop-drop,
  drop-append_of_le, append-nil, append_assoc,
}
use exoclaw_plugins.LoopDetection.{Config, ToolCall, Policy, record_call, init}

module _ {A : Type 0} where
  last_slice_of_le : (n : ℕ) (xs : List A) → length xs ≤ n → last_slice n xs ≡ xs
  last_slice_of_le n xs h = let e : length xs - n ≡ 0 = omega arith in rw e (ground arith)

  last_slice-suc : (m : ℕ) (xs : List A) → last_slice (suc m) xs ≡ drop (length xs - suc m) xs
  last_slice-suc m xs = ground arith

  -- A window of a window and one more element is a window of the whole.
  last_slice-snoc :
      (n : ℕ) (x : A) (xs : List A)
      → last_slice n (last_slice n xs ++ (x ∷ [])) ≡ last_slice n (xs ++ (x ∷ []))
  last_slice-snoc zero x xs = refl
  last_slice-snoc (suc m) x xs =
      let k = length xs - suc m in
      let e : last_slice (suc m) xs ++ (x ∷ []) ≡ drop k (xs ++ (x ∷ [])) =
        ap (λ (t : List A). t ++ (x ∷ [])) (last_slice-suc m xs)
        ∙ sym (drop-append_of_le k xs (x ∷ []) (omega arith)) in
      let ys = xs ++ (x ∷ []) in
      ap (last_slice (suc m)) e
      ∙ last_slice-suc m (drop k ys)
      ∙ drop-drop (length (drop k ys) - suc m) k ys
      ∙ ap (λ (j : ℕ). drop j ys) (omega (arith, length-drop k ys, length-append xs (x ∷ [])))
      ∙ sym (last_slice-suc m ys)

  pub length-last_slice-le : (n : ℕ) (xs : List A) → 0 < n → length (last_slice n xs) ≤ n
  length-last_slice-le zero xs h = elim h [ ]
  length-last_slice-le (suc m) xs h =
      rw (last_slice-suc m xs) (omega (arith, length-drop (length xs - suc m) xs))

  -- The test of `record` only skips a slice that would change nothing.
  trim-eq-last_slice :
      (n : ℕ) (xs : List A) → (if ltb n (length xs) then last_slice n xs else xs) ≡ last_slice n xs
  trim-eq-last_slice n xs = ground (arith, last_slice_of_le n xs)

module _ {ℓ} {Args : Type ℓ} (dumps : String → Args → String) where
  abbrev pub fingerprint : String × Args → ToolCall
  fingerprint (name, args) = record { name = name; args_hash = dumps name args }

  -- Recording the calls of a turn, one after the other.
  unfoldable pub record_all : List (String × Args) → Policy → Policy
  record_all [] p = p
  record_all (c ∷ calls) p = record_all calls (record_call dumps c.0 c.1 p)

  -- One call keeps the window, and the configuration.
  record_call-window :
      (c : String × Args) (p : Policy) (n : ℕ) (log : List ToolCall)
      → p.config.history_size ≡ n
      → p.history ≡ last_slice n log
      → ((record_call dumps c.0 c.1 p).config.history_size ≡ n)
        × ((record_call dumps c.0 c.1 p).history ≡ last_slice n (log ++ (fingerprint c ∷ [])))
  unfolding record_call
  record_call-window c p n log e h = (
    e,
    ap
          (λ (k : ℕ).
            let ys = p.history ++ (fingerprint c ∷ []) in
            if ltb k (length ys) then last_slice k ys else ys)
          e
        ∙ trim-eq-last_slice n (p.history ++ (fingerprint c ∷ []))
        ∙ ap (λ (t : List ToolCall). last_slice n (t ++ (fingerprint c ∷ []))) h
        ∙ last_slice-snoc n (fingerprint c) log,
  )

  record_all-window :
      (calls : List (String × Args)) (p : Policy) (n : ℕ) (log : List ToolCall)
      → p.config.history_size ≡ n
      → p.history ≡ last_slice n log
      → (record_all calls p).history ≡ last_slice n (log ++ map fingerprint calls)
  unfolding record_all
  record_all-window [] p n log e h = rw append-nil h
  record_all-window (c ∷ calls) p n log e h =
      let (e', h') = record_call-window c p n log e h in
      record_all-window calls (record_call dumps c.0 c.1 p) n (log ++ (fingerprint c ∷ [])) e' h'
      ∙ ap (last_slice n) (append_assoc log (fingerprint c ∷ []) (map fingerprint calls))

  -- From an empty history, after any calls the history is the last `history_size` entries of the
  -- log of all of them, in order (all of them when `history_size` is 0).
  pub record_all-history :
      (calls : List (String × Args)) (config : Config)
      → (record_all calls (init (some config))).history
        ≡ last_slice config.history_size (map fingerprint calls)
  unfolding init
  record_all-history calls config =
      record_all-window calls (init (some config)) config.history_size [] refl
        (sym (last_slice_of_le {A = ToolCall} config.history_size [] (omega arith)))

  -- So with a positive `history_size` the history never grows past it.
  pub record_all-bounded :
      (calls : List (String × Args)) (config : Config)
      → 0 < config.history_size
      → length (record_all calls (init (some config))).history ≤ config.history_size
  record_all-bounded calls config h =
      rw (record_all-history calls config)
        (length-last_slice-le config.history_size (map fingerprint calls) h)
