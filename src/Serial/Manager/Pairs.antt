-- ===== src/Serial/Manager/Pairs.antt =====
-- How the effects of start and of shutdown pair.
use p.Common.{true, false, ℕ, ◌≡◌, ap, sym, subst, ◌∙◌, List, [], ◌∷◌, ◌++◌, append_assoc}
use p.Serial.Manager.{
  Worker, reader, writer, deliverer, Effect, opens, closes, Creation, succeeds, fails, Creations,
  id_of, creation, creations, joined,
}
use p.Serial.Manager.States.{Paired, Balanced, Owes, ends_with}

-- A creation, and the join that follows from it
creation-Paired :
    (w : Worker) (c : Creation) (es fs : List Effect)
    → Paired es fs
    → Paired (creation w c ++ es) (joined (id_of c) w ++ fs)
creation-Paired w succeeds es fs (a, b, c) = (a, ap (λ l. w ∷ l) b, c)
creation-Paired w (fails true) es fs (a, b, c) = (a, b, ap (λ l. w ∷ l) c)
creation-Paired w (fails false) es fs h = h

-- A creation ends nothing.
after_creation :
    (w : Worker) (c : Creation) (es fs : List Effect)
    → Paired es fs
    → Paired es (creation w c ++ fs)
after_creation w succeeds es fs h = h
after_creation w (fails true) es fs h = h
after_creation w (fails false) es fs h = h

-- A join begins nothing.
before_join :
    (w : Worker) (c : Creation) (es fs : List Effect)
    → Paired es fs
    → Paired (joined (id_of c) w ++ es) fs
before_join w succeeds es fs h = h
before_join w (fails true) es fs h = h
before_join w (fails false) es fs h = h

-- The port is opened before the threads are created.
opens_first :
    (fd : ℕ) (w : Worker) (c : Creation) (es fs : List Effect)
    → Paired (creation w c ++ (opens fd ∷ es)) fs
    → Paired (opens fd ∷ (creation w c ++ es)) fs
opens_first fd w succeeds es fs h = h
opens_first fd w (fails true) es fs h = h
opens_first fd w (fails false) es fs h = h

creations_assoc :
    (c : Creations) (es : List Effect)
    → creations c ++ es
      ≡ creation reader c.read_thread
        ++ (creation writer c.write_thread ++ (creation deliverer c.deliver_thread ++ es))
creations_assoc c es =
    let r = creation reader c.read_thread in
    let w = creation writer c.write_thread in
    let d = creation deliverer c.deliver_thread in
    append_assoc (r ++ w) d es ∙ append_assoc r w (d ++ es)

ends_assoc :
    (fd : ℕ) (c : Creations) (es : List Effect)
    → ends_with fd c ++ es
      ≡ joined (id_of c.read_thread) reader
        ++ (joined (id_of c.write_thread) writer
            ++ (joined (id_of c.deliver_thread) deliverer ++ (closes fd ∷ es)))
ends_assoc fd c es =
    let r = joined (id_of c.read_thread) reader in
    let w = joined (id_of c.write_thread) writer in
    let d = joined (id_of c.deliver_thread) deliverer in
    append_assoc ((r ++ w) ++ d) (closes fd ∷ []) es
    ∙ append_assoc (r ++ w) d (closes fd ∷ es)
    ∙ append_assoc r w (d ++ (closes fd ∷ es))

pub start-Balanced :
    (fd : ℕ) (c : Creations) (es : List Effect)
    → Owes fd c es
    → Balanced (opens fd ∷ (creations c ++ es))
start-Balanced fd c es h =
    let begins = opens fd ∷ (creations c ++ es) in
    subst (λ fs. Paired begins (opens fd ∷ fs)) (sym (creations_assoc c es))
      (after_creation reader c.read_thread begins _ (
        after_creation writer c.write_thread begins _
          (after_creation deliverer c.deliver_thread begins es h)))

-- A worker's creation among what begins, and its join among what ends
around :
    (fd : ℕ) (w : Worker) (c : Creation) (es fs : List Effect)
    → Paired (opens fd ∷ es) fs
    → Paired (opens fd ∷ (creation w c ++ es)) (joined (id_of c) w ++ fs)
around fd w c es fs h =
    opens_first fd w c es (joined (id_of c) w ++ fs) (creation-Paired w c (opens fd ∷ es) fs h)

pub ends_with-Owes :
    (fd : ℕ) (c : Creations) (es : List Effect) → Balanced es → Owes fd c (ends_with fd c ++ es)
ends_with-Owes fd c es h =
    let ends =
      joined (id_of c.read_thread) reader
      ++ (joined (id_of c.write_thread) writer
          ++ (joined (id_of c.deliver_thread) deliverer ++ (closes fd ∷ es))) in
    let begun =
      before_join reader c.read_thread _ es
        (before_join writer c.write_thread _ es (before_join deliverer c.deliver_thread _ es h)) in
    subst (λ fs. Owes fd c fs) (sym (ends_assoc fd c es))
      (subst (λ bs. Paired (opens fd ∷ bs) ends) (sym (creations_assoc c ends))
        (around fd reader c.read_thread _ _ (
          around fd writer c.write_thread _ _ (
            around fd deliverer c.deliver_thread ends (closes fd ∷ es)
              (ap (λ l. fd ∷ l) begun.0, begun.1, begun.2)))))
