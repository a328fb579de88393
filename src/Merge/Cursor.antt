-- ===== src/Merge/Cursor.antt =====
-- The inputs of a merge as cursors over the records of their files: an abstract queue, and that
-- `next` of mergeoperation.cpp implements it.
use pwned.Base.{
  ◌+◌, ◌≡◌, refl, ap, sym, subst, ◌∙◌, Bool, true, false, List, [], ◌∷◌, ◌++◌, Option, none, some,
  All, if◌then◌else◌, drop, drop-append_left,
}
use pwned.Hash.{hash_gt}
use pwned.Hash.Order.{IsQuads}
use pwned.Stream.{good, ahead}
use pwned.Phc.{Phc, default_phc, dump, dump_all}
use pwned.Phc.RoundTrip.{Fits, loaded, read_phc-dump, read_phc_end, drop-add, length-dump}
use pwned.Merge.{MergerInput, read_input}

-- A record as `read` leaves it in a fresh `PasswordHashAndCount`.
abbrev pub clean : Phc → Phc
clean r = loaded r default_phc

-- The record at hand, those that follow in the file, and whether the last read succeeded.
pub record Cursor : Type 0 where
  pub cur : Phc
  pub rest : List Phc
  pub live : Bool

-- `mi` stands at the cursor `c`.
pub record Stands (mi : MergerInput) (c : Cursor) : Type 0 where
  pub at_hand : mi.phc ≡ c.cur
  pub unset : c.cur.hash.is_valid ≡ false
  pub quads : IsQuads c.cur.hash
  pub valid : mi.is_valid ≡ c.live
  pub fits : All Fits c.rest
  pub readable : c.live ≡ true → good mi.f ≡ true
  pub follows : c.live ≡ true → ahead mi.f ≡ dump_all c.rest

abbrev pub StandAt : List MergerInput → List Cursor → Type 0
StandAt [] [] = Unit
StandAt [] (c ∷ cs) = ⊥
StandAt (mi ∷ pq) [] = ⊥
StandAt (mi ∷ pq) (c ∷ cs) = Stands mi c × StandAt pq cs

-- The next record of the file, if there is one; else the cursor stays, no longer live.
abbrev pub advance : Cursor → Cursor
advance c = elim c.rest [
  | [] ↦ record c { live = false }
  | y ∷ ys ↦ record { cur = clean y; rest = ys; live = true }
]

unfoldable pub insert_cursor : Cursor → List Cursor → List Cursor
insert_cursor c [] = c ∷ []
insert_cursor c (top ∷ cs) =
    let rest = insert_cursor c cs in
    if hash_gt top.cur.hash c.cur.hash then c ∷ top ∷ cs else top ∷ rest

abbrev pub requeue : Cursor → List Cursor → List Cursor
requeue c cs = if c.live then insert_cursor c cs else c ∷ cs

-- The record that the queue gives, and the queue afterwards; none at the end, when the last input
-- is used up.
unfoldable pub emit : List Cursor → Option (Phc × List Cursor)
emit [] = none
emit (c ∷ cs) =
    if c.live
    then some (c.cur, requeue (advance c) cs)
    else elim cs [ [] ↦ none | d ∷ ds ↦ some (c.cur, d ∷ ds) ]

dump_all-nil : (rs : List Phc) → rs ≡ [] → dump_all rs ≡ []
dump_all-nil rs e = ap dump_all e ∙ unfold dump_all in refl

dump_all-cons :
    (rs : List Phc) (y : Phc) (ys : List Phc) → rs ≡ y ∷ ys → dump_all rs ≡ dump y ++ dump_all ys
dump_all-cons rs y ys e = ap dump_all e ∙ unfold dump_all in refl

loaded_unset : (y p : Phc) → p.hash.is_valid ≡ false → loaded y p ≡ clean y
loaded_unset y p e = rw e

module _ (mi : MergerInput) (c : Cursor) (s : Stands mi c) (l : c.live ≡ true) where
  at_end :
      c.rest ≡ []
      → read_input mi
        ≡ record mi { is_valid = false; f = record mi.f { eofbit = true; failbit = true } }
  unfolding read_input
  at_end e =
      rw
        (read_phc_end mi.phc mi.f (subst (λ p. IsQuads p.hash) (sym s.at_hand) s.quads)
          (s.readable l) (s.follows l ∙ dump_all-nil c.rest e))
        refl

  pub read_input-end : c.rest ≡ [] → Stands (read_input mi) (record c { live = false })
  read_input-end e =
      subst (λ x. Stands x (record c { live = false })) (sym (at_end e))
        (record {
          at_hand = s.at_hand;
          unset = s.unset;
          quads = s.quads;
          valid = refl;
          fits = s.fits;
          readable = λ dead. cc;
          follows = λ dead. cc;
        })

  module _ (y : Phc) (ys : List Phc) (e : c.rest ≡ y ∷ ys) where
    fit : Fits y × All Fits ys
    fit = subst (All Fits) e s.fits

    at_next : read_input mi ≡ record mi {
      phc = loaded y mi.phc;
      is_valid = true;
      f = record mi.f { at = mi.f.at + 20 };
    }
    unfolding read_input
    at_next =
        rw
          (read_phc-dump mi.phc y mi.f (dump_all ys) (s.readable l) fit.0
            (s.follows l ∙ dump_all-cons c.rest y ys e))
          refl

    pub read_input-next : Stands (read_input mi) (record { cur = clean y; rest = ys; live = true })
    read_input-next =
        subst (λ x. Stands x (record { cur = clean y; rest = ys; live = true })) (sym at_next)
          (record {
            at_hand = loaded_unset y mi.phc (ap (λ p. p.hash.is_valid) s.at_hand ∙ s.unset);
            unset = refl;
            quads = record {
              upper_fits = fit.0.quads.upper_fits;
              lower_fits = fit.0.quads.lower_fits;
            };
            valid = refl;
            fits = fit.1;
            readable = λ _. s.readable l;
            follows = λ _.
                drop-add mi.f.at 20 mi.f.bytes
                ∙ ap (drop 20) (s.follows l ∙ dump_all-cons c.rest y ys e)
                ∙ drop-append_left (dump y) (dump_all ys) 20 (length-dump y);
          })
