-- ===== src/Aggregation/Buckets.antt =====
-- Buckets are equal, and are changed one at a time.
use proofstep.Prelude.{
  ◌≡◌, refl, ap, ◌↔◌, true, ◌||◌, List, [], ◌∷◌, arith, if◌then◌else◌, any, str_eq_iff, Bool, false,
  ◌∙◌, map, ◌++◌, Bool-cases, inl, inr,
}
use proofstep.Prelude.Sort.{insert_by, sort_by, any-insert_by, any-sort_by}
use proofstep.Gates.Apply.{same_items}
use proofstep.Aggregation.{
  bucket_list, bucket_leb, Tallies, SliceKey, Bucket, same_bucket, mem_slice, distinct, Table, at,
  change, has_key, distinct_buckets,
}

pub same_items_iff : (xs ys : SliceKey) → (same_items xs ys ≡ true) ↔ (xs ≡ ys)
unfolding same_items
same_items_iff [] [] = (λ h. refl, λ h. refl)
same_items_iff [] (y ∷ ys) = (λ h. absurd (cc), λ h. absurd (cc))
same_items_iff (x ∷ xs) [] = (λ h. absurd (cc), λ h. absurd (cc))
same_items_iff (x ∷ xs) (y ∷ ys) = (
  λ h. ground (arith, str_eq_iff x.0 y.0, str_eq_iff x.1 y.1, same_items_iff xs ys),
  λ h. ground (arith, str_eq_iff x.0 y.0, str_eq_iff x.1 y.1, same_items_iff xs ys),
)

pub same_bucket_iff : (a b : Bucket) → (same_bucket a b ≡ true) ↔ (a ≡ b)
same_bucket_iff a b = (
  λ h. ground (arith, str_eq_iff a.metric b.metric, same_items_iff a.slice b.slice),
  λ h. ground (arith, str_eq_iff a.metric b.metric, same_items_iff a.slice b.slice),
)

module _ {V : Type 0} (default : V) (f : V → V) where
  pub at-change :
      (b c : Bucket) (table : Table V)
      → at default c (change default f b table)
        ≡ (if same_bucket b c then f (at default b table) else at default c table)
  unfolding at change
  at-change b c [] = ground (arith, same_bucket_iff b c, same_bucket_iff c b)
  at-change b c ((d, v) ∷ table) = ground (
    arith,
    same_bucket_iff b c,
    same_bucket_iff c b,
    same_bucket_iff b d,
    same_bucket_iff c d,
    at-change b c table,
  )

  pub has_key-change :
      (b c : Bucket) (table : Table V)
      → has_key c (change default f b table) ≡ (same_bucket b c || has_key c table)
  unfolding change
  has_key-change b c [] = ground (arith, same_bucket_iff b c, same_bucket_iff c b)
  has_key-change b c ((d, v) ∷ table) = ground (
    arith,
    same_bucket_iff b c,
    same_bucket_iff c b,
    same_bucket_iff b d,
    same_bucket_iff c d,
    has_key-change b c table,
  )

pub mem-distinct_buckets :
    (b : Bucket) (bs : List Bucket)
    → any (same_bucket b) (distinct_buckets bs) ≡ any (same_bucket b) bs
unfolding distinct_buckets
mem-distinct_buckets b [] = refl
mem-distinct_buckets b (c ∷ bs) = ground (
  arith,
  mem-distinct_buckets b bs,
  same_bucket_iff b c,
  λ (e : b ≡ c). ap (λ x. any (same_bucket x) bs) e,
)

pub mem-distinct :
    (key : SliceKey) (keys : List SliceKey) → mem_slice key (distinct keys) ≡ mem_slice key keys
unfolding distinct
mem-distinct key [] = refl
mem-distinct key (k ∷ keys) = ground (
  arith,
  mem-distinct key keys,
  same_items_iff k key,
  λ (e : k ≡ key). ap (λ x. mem_slice x keys) e,
)

-- No bucket is the same as a later one.
abbrev pub IsDistinct : List Bucket → Type 0
IsDistinct [] = Unit {0}
IsDistinct (b ∷ bs) = (any (same_bucket b) bs ≡ false) × IsDistinct bs

distinct_buckets-IsDistinct : (bs : List Bucket) → IsDistinct (distinct_buckets bs)
unfolding distinct_buckets
distinct_buckets-IsDistinct [] = tt
distinct_buckets-IsDistinct (b ∷ bs) = elim (Bool-cases (any (same_bucket b) bs)) [
  | inl e ↦ rw e (distinct_buckets-IsDistinct bs)
  | inr e ↦ rw e (mem-distinct_buckets b bs ∙ e, distinct_buckets-IsDistinct bs)
]

insert_by-IsDistinct :
    (le : Bucket → Bucket → Bool) (b : Bucket) (bs : List Bucket)
    → any (same_bucket b) bs ≡ false
    → IsDistinct bs
    → IsDistinct (insert_by le b bs)
unfolding insert_by
insert_by-IsDistinct le b [] h k = (refl, tt)
insert_by-IsDistinct le b (c ∷ bs) h (first, rest) = elim (Bool-cases (le b c)) [
  | inl e ↦ rw e (h, (first, rest))
  | inr e ↦ rw e (
    ground (arith, any-insert_by le (same_bucket c) b bs, same_bucket_iff b c, same_bucket_iff c b),
    insert_by-IsDistinct le b bs (ground arith) rest,
  )
]

sort_by-IsDistinct :
    (le : Bucket → Bucket → Bool) (bs : List Bucket) → IsDistinct bs → IsDistinct (sort_by le bs)
unfolding sort_by
sort_by-IsDistinct le [] h = tt
sort_by-IsDistinct le (b ∷ bs) (first, rest) =
    insert_by-IsDistinct le b (sort_by le bs) (any-sort_by le (same_bucket b) bs ∙ first)
      (sort_by-IsDistinct le bs rest)

pub bucket_list-IsDistinct : {F : Type 0} (t : Tallies F) → IsDistinct (bucket_list t)
unfolding bucket_list
bucket_list-IsDistinct t =
    sort_by-IsDistinct bucket_leb
      (distinct_buckets (map (λ e. e.0) t.buckets ++ map (λ e. e.0) t.errors))
      (distinct_buckets-IsDistinct (map (λ e. e.0) t.buckets ++ map (λ e. e.0) t.errors))
