-- ===== src/Serial/DeliverThread/Arrivals.antt =====
-- What comes of the frames that wait and of those that are pushed while the thread waits.
use p.Common.{
  ◌≡◌, refl, sym, ap, ◌∙◌, List, [], ◌∷◌, ◌++◌, take, drop, take-append-drop, length, length-drop,
  length-append, ◌⊎◌, inl, inr, suc, ◌+◌, ◌≤◌, arith, append_assoc, append-nil,
}
use p.Serial.Queue.{Frame, Queue}
use p.Serial.DeliverThread.{Wake, DeliverRound}

-- The frames that wait behind the inner loop, and those of them that came in it. A thread that
-- finds a frame does not wait.
abbrev pub woken : Queue → List Wake → Queue
woken [] [] = []
woken [] (w ∷ wakes) = woken w.pushed wakes
woken (f ∷ q) wakes = f ∷ q

abbrev pub came : Queue → List Wake → List Frame
came [] [] = []
came [] (w ∷ wakes) = w.pushed ++ came w.pushed wakes
came (f ∷ q) wakes = []

-- The batches of the rounds, the frames that are left, and the frames that came in the waits
abbrev pub serve : Queue → List DeliverRound → List (List Frame) × Queue
serve q [] = ([], q)
serve q (r ∷ rounds) = elim (woken q r.wakes) [
  | [] ↦ ([], [])
  | f ∷ fs ↦ let x = serve (drop 1024 (f ∷ fs)) rounds in (take 1024 (f ∷ fs) ∷ x.0, x.1)
]

abbrev pub arrived : Queue → List DeliverRound → List Frame
arrived q [] = []
arrived q (r ∷ rounds) =
    came q r.wakes
    ++ elim (woken q r.wakes) [ [] ↦ [] | f ∷ fs ↦ arrived (drop 1024 (f ∷ fs)) rounds ]

abbrev pub joined : List (List Frame) → List Frame
joined [] = []
joined (b ∷ bs) = b ++ joined bs

woken-came : (q : Queue) (wakes : List Wake) → woken q wakes ≡ q ++ came q wakes
woken-came [] [] = refl
woken-came [] (w ∷ wakes) = woken-came w.pushed wakes
woken-came (f ∷ q) wakes = sym (append-nil (f ∷ q))

-- The batches of a round and those behind it, by the frames that wait for the round
abbrev pub behind : List DeliverRound → Queue → List (List Frame) × Queue
behind rounds [] = ([], [])
behind rounds (f ∷ fs) =
    let x = serve (drop 1024 (f ∷ fs)) rounds in (take 1024 (f ∷ fs) ∷ x.0, x.1)

abbrev pub behind_arrived : List DeliverRound → Queue → List Frame
behind_arrived rounds [] = []
behind_arrived rounds (f ∷ fs) = arrived (drop 1024 (f ∷ fs)) rounds

behind_lem :
    (rounds : List DeliverRound) (w : Queue)
    → ((q : Queue) → joined (serve q rounds).0 ++ (serve q rounds).1 ≡ q ++ arrived q rounds)
    → joined (behind rounds w).0 ++ (behind rounds w).1 ≡ w ++ behind_arrived rounds w
behind_lem rounds [] ih = refl
behind_lem rounds (f ∷ fs) ih =
    let q = drop 1024 (f ∷ fs) in
    append_assoc (take 1024 (f ∷ fs)) (joined (serve q rounds).0) (serve q rounds).1
    ∙ ap (λ l. take 1024 (f ∷ fs) ++ l) (ih q)
    ∙ sym (append_assoc (take 1024 (f ∷ fs)) q (arrived q rounds))
    ∙ ap (λ l. l ++ arrived q rounds) (take-append-drop 1024 (f ∷ fs))

-- No frame is lost, given twice or overtaken.
pub serve-arrived :
    (rounds : List DeliverRound) (q : Queue)
    → joined (serve q rounds).0 ++ (serve q rounds).1 ≡ q ++ arrived q rounds
serve-arrived [] q = sym (append-nil q)
serve-arrived (r ∷ rounds) q =
    behind_lem rounds (woken q r.wakes) (serve-arrived rounds)
    ∙ ap (λ l. l ++ behind_arrived rounds (woken q r.wakes)) (woken-came q r.wakes)
    ∙ append_assoc q (came q r.wakes) (behind_arrived rounds (woken q r.wakes))

behind-progress :
    (rounds : List DeliverRound) (w : Queue)
    → ((q : Queue)
        → ((serve q rounds).1 ≡ [])
          ⊎ (length (serve q rounds).1 + length rounds ≤ length q + length (arrived q rounds)))
    → ((behind rounds w).1 ≡ [])
      ⊎ (length (behind rounds w).1 + suc (length rounds)
          ≤ length w + length (behind_arrived rounds w))
behind-progress rounds [] ih = inl refl
behind-progress rounds (f ∷ fs) ih = elim (ih (drop 1024 (f ∷ fs))) [
  | inl e ↦ inl e
  | inr h ↦ inr (omega (arith, h, length-drop 1024 (f ∷ fs)))
]

-- Each round takes a frame, or there is none left.
pub serve-progress :
    (rounds : List DeliverRound) (q : Queue)
    → ((serve q rounds).1 ≡ [])
      ⊎ (length (serve q rounds).1 + length rounds ≤ length q + length (arrived q rounds))
serve-progress [] q = inr (omega arith)
serve-progress (r ∷ rounds) q =
    elim (behind-progress rounds (woken q r.wakes) (serve-progress rounds)) [
      | inl e ↦ inl e
      | inr h ↦ inr (
          omega (
            arith,
            h,
            ap length (woken-came q r.wakes),
            length-append q (came q r.wakes),
            length-append (came q r.wakes) (behind_arrived rounds (woken q r.wakes)),
          ))
    ]
