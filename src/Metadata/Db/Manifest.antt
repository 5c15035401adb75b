-- ===== src/Metadata/Db/Manifest.antt =====
-- The delta of the log that a peer is given: what it holds, and what it can miss.
use t_u_s_h_e_r.Base.{
  Bool, Bool-cases, inl, inr, ℕ, zero, suc, ◌^◌, ◌≤◌, ◌<◌, ◌≡◌, refl, ap, true, List, [], ◌∷◌,
  arith, All, Pairwise, In, here, there, filter, take, length, length-take, sort_by_sorted, leb,
  All-map, All-take, Pairwise-filter, Pairwise-take, Pairwise-after, In-filter, In-filter_intro,
  nat_eq, bytes_eq,
}
use t_u_s_h_e_r.Base.Int.{as_i64_small}
use t_u_s_h_e_r.Base.Text.{Text}
use t_u_s_h_e_r.Metadata.Tables.{EventRow, MetadataDb}
use t_u_s_h_e_r.Metadata.Tables.Valid.{IsValid, Earlier}
use t_u_s_h_e_r.Metadata.Db.{event_after, select_events_since, get_latest_event_seq, max_seq}

-- The events of the folder behind a sequence number, all of them.
abbrev pub pending : Text → ℕ → MetadataDb → List EventRow
pending folder_id since db = filter (event_after folder_id since) db.sync_events

Pairwise-weaken {ℓ κ μ} :
    {A : Type ℓ} (R : A → A → Type κ) (S : A → A → Type μ)
    → ((a b : A) → R a b → S a b)
    → (xs : List A) → Pairwise R xs
    → Pairwise S xs
Pairwise-weaken R S f [] h = tt
Pairwise-weaken R S f (x ∷ xs) (hx, h) = (All-map (R x) (f x) xs hx, Pairwise-weaken R S f xs h)

-- On a valid database the SELECT gives the first events of the folder behind the number, in the
-- order in which they were logged.
pub select_events_since_lem :
    (folder_id : Text) (since limit : ℕ) (db : MetadataDb)
    → IsValid db
    → limit < 2 ^ 63
    → select_events_since folder_id since limit db ≡ take limit (pending folder_id since db)
unfolding select_events_since
select_events_since_lem folder_id since limit db v h = rw (
  as_i64_small limit h,
  sort_by_sorted (λ a b. leb a.event_seq b.event_seq) (pending folder_id since db)
      (Pairwise-weaken Earlier (λ a b. leb a.event_seq b.event_seq ≡ true) (λ a b lt. ground arith)
        (pending folder_id since db) (Pairwise-filter Earlier _ db.sync_events v.ascending)),
)

max_seq-bound : (rows : List EventRow) (row : EventRow) → In row rows → row.event_seq ≤ max_seq rows
unfolding max_seq
max_seq-bound [] row m = elim m [ ]
max_seq-bound (r ∷ rows) row (here e) = ground arith
max_seq-bound (r ∷ rows) row (there m) = omega (arith, max_seq-bound rows row m)

-- No event of the folder has a number above the one that is reported as the latest.
pub event_seq-le-latest :
    (folder_id : Text) (db : MetadataDb) (row : EventRow)
    → In row db.sync_events
    → row.folder_id ≡ folder_id
    → row.event_seq ≤ get_latest_event_seq folder_id db
unfolding get_latest_event_seq
event_seq-le-latest folder_id db row m e =
    max_seq-bound _ row (In-filter_intro _ db.sync_events row m (ground arith))

take_all {ℓ} : {A : Type ℓ} (n : ℕ) (xs : List A) → length xs ≤ n → take n xs ≡ xs
take_all zero [] h = refl
take_all zero (x ∷ xs) h = absurd (omega arith)
take_all (suc n) [] h = refl
take_all (suc n) (x ∷ xs) h = ap (◌∷◌ x) (take_all n xs (omega arith))

event_after-seq :
    (folder_id : Text) (since : ℕ) (row : EventRow)
    → since < 2 ^ 63
    → event_after folder_id since row ≡ true
    → (row.folder_id ≡ folder_id) × (since < row.event_seq)
event_after-seq folder_id since row h e = ground (arith, as_i64_small since h)

seq-event_after :
    (folder_id : Text) (since : ℕ) (row : EventRow)
    → since < 2 ^ 63
    → row.folder_id ≡ folder_id
    → since < row.event_seq
    → event_after folder_id since row ≡ true
seq-event_after folder_id since row h e lt = ground (arith, as_i64_small since h)

filter-In {ℓ} :
    {A : Type ℓ} (f : A → Bool) (xs : List A) → All (λ x. In x xs × (f x ≡ true)) (filter f xs)
filter-In f [] = tt
filter-In f (x ∷ xs) =
    let rest =
      All-map (λ y. In y xs × (f y ≡ true)) (λ y (m, e). (there m, e)) (filter f xs)
        (filter-In f xs) in
    elim (Bool-cases (f x)) [ inl e ↦ rw e ((here refl, e), rest) | inr e ↦ rw e rest ]

module _ (folder_id : Text) (since : ℕ) (db : MetadataDb) (v : IsValid db)
    (small : since < 2 ^ 63) where
  pub select_events_since_complete :
      (limit : ℕ)
      → limit < 2 ^ 63
      → let sent = select_events_since folder_id since limit db in
        All (λ r. In r db.sync_events × (r.folder_id ≡ folder_id) × (since < r.event_seq)) sent
        × Pairwise Earlier sent
        × (length sent ≤ limit)
        × (length (pending folder_id since db) ≤ limit
            → (row : EventRow) → In row db.sync_events
            → row.folder_id ≡ folder_id
            → since < row.event_seq
            → In row sent)
  select_events_since_complete limit h =
      let pend = pending folder_id since db in
      rw (select_events_since_lem folder_id since limit db v h) (
        All-take _ limit pend (
            All-map (λ r. In r db.sync_events × (event_after folder_id since r ≡ true))
              (λ r (m, e).
                let (ours, above) = event_after-seq folder_id since r small e in (m, ours, above))
              pend (filter-In (event_after folder_id since) db.sync_events)),
        Pairwise-take Earlier limit pend (Pairwise-filter Earlier _ db.sync_events v.ascending),
        omega (arith, length-take limit pend),
        λ few row m e lt. rw (take_all limit pend few) (
            In-filter_intro _ db.sync_events row m
              (seq-event_after folder_id since row small e lt)),
      )

  -- If more events are pending than the limit, one of them is not sent, and its number is not above
  -- the one that is reported as the latest.
  pub select_events_since_cut :
      (limit : ℕ)
      → limit < length (pending folder_id since db)
      → limit < 2 ^ 63
      → (row : EventRow) × In row db.sync_events
        × (row.folder_id ≡ folder_id)
        × (since < row.event_seq)
        × (row.event_seq ≤ get_latest_event_seq folder_id db)
        × All (λ r. r.event_seq < row.event_seq) (select_events_since folder_id since limit db)
  select_events_since_cut limit more h =
      let (row, m, before) =
        Pairwise-after Earlier limit (pending folder_id since db)
          (Pairwise-filter Earlier _ db.sync_events v.ascending) more in
      let (logged, test) = In-filter _ db.sync_events row m in
      let (ours, above) = event_after-seq folder_id since row small test in
      (
        row,
        logged,
        ours,
        above,
        event_seq-le-latest folder_id db row logged ours,
        rw (select_events_since_lem folder_id since limit db v h) before,
      )
