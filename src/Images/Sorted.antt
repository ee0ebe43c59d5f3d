-- ===== src/Images/Sorted.antt =====
-- An insertion sort by time, which sorts as src/normalize.go needs of `sort.Slice`.
use umans_dash_go.Prelude.{
  ◌≡◌, refl, ◌+◌, inl, inr, Bool, List, [], ◌∷◌, ◌≤ℤ◌, leb_ℤ, if◌then◌else◌, All, arith, Bool-cases,
}
use umans_dash_go.Images.{ImgPart}
use umans_dash_go.Images.Numbers.{count, Ordered, Sorts}

abbrev insert : ImgPart → List ImgPart → List ImgPart
insert p [] = p ∷ []
insert p (q ∷ qs) = if leb_ℤ p.time q.time then p ∷ q ∷ qs else q ∷ insert p qs

abbrev pub sort_by_time : List ImgPart → List ImgPart
sort_by_time [] = []
sort_by_time (p ∷ ps) = insert p (sort_by_time ps)

count-insert :
    (test : ImgPart → Bool) (p : ImgPart) (qs : List ImgPart)
    → count test (insert p qs) ≡ (if test p then 1 else 0) + count test qs
count-insert test p [] = refl
count-insert test p (q ∷ qs) = ground (arith, count-insert test p qs)

count-sort :
    (test : ImgPart → Bool) (ps : List ImgPart) → count test (sort_by_time ps) ≡ count test ps
count-sort test [] = refl
count-sort test (p ∷ ps) = ground (arith, count-insert test p (sort_by_time ps), count-sort test ps)

abbrev Behind : ImgPart → List ImgPart → Type 0
Behind p ps = All (λ (q : ImgPart). p.time ≤ℤ q.time) ps

Behind-insert :
    (p q : ImgPart) (qs : List ImgPart) → p.time ≤ℤ q.time → Behind p qs → Behind p (insert q qs)
Behind-insert p q [] h hs = (h, tt)
Behind-insert p q (r ∷ qs) h (k, hs) = elim (Bool-cases (leb_ℤ q.time r.time)) [
  | inl e ↦ rw e (h, (k, hs))
  | inr e ↦ rw e (k, Behind-insert p q qs h hs)
]

earlier : (p q : ImgPart) (qs : List ImgPart) → p.time ≤ℤ q.time → Behind q qs → Behind p qs
earlier p q [] h hs = tt
earlier p q (r ∷ qs) h (k, hs) = (ground (arith, h, k), earlier p q qs h hs)

insert-Ordered : (p : ImgPart) (qs : List ImgPart) → Ordered qs → Ordered (insert p qs)
insert-Ordered p [] h = (tt, tt)
insert-Ordered p (q ∷ qs) (h, hs) = elim (Bool-cases (leb_ℤ p.time q.time)) [
  | inl e ↦ rw e ((ground (arith, e), earlier p q qs (ground (arith, e)) h), (h, hs))
  | inr e ↦ rw e (Behind-insert q p qs (ground (arith, e)) h, insert-Ordered p qs hs)
]

sort-Ordered : (ps : List ImgPart) → Ordered (sort_by_time ps)
sort-Ordered [] = tt
sort-Ordered (p ∷ ps) = insert-Ordered p (sort_by_time ps) (sort-Ordered ps)

pub sort_by_time-Sorts : Sorts sort_by_time
sort_by_time-Sorts ps = (λ test. count-sort test ps, sort-Ordered ps)
