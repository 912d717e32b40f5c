-- ===== src/Backfill/Copies.antt =====
-- The COPY of blocks, by the primary key of eth_blocks and by the rows outside the interval.
use ff_eth_logs.Base.{
  ℕ, ◌≡◌, ◌≢◌, inl, inr, Bool, false, not, List, [], ◌∷◌, ◌++◌, some, All, filter, any, arith, refl,
  sym, subst, ap, ◌∙◌, Bool-cases, Option-cases,
}
use ff_eth_logs.Base.Exec.{ok, Result-cases}
use ff_eth_logs.Logstore.{Block, block_at, between}
use ff_eth_logs.Logstore.Write.{insert_blocks, same_number}
use ff_eth_logs.Logstore.Write.Contiguous.{insert_blocks-some, block_at-append, block_at-filter}
use ff_eth_logs.Backfill.Manifest.{Text, Manifest, Export}
use ff_eth_logs.Backfill.Checks.{Step, Site, copy_blocks, blocks_body}
use ff_eth_logs.Backfill.Counting.{Unique}

pub Unique-filter : (p : Block → Bool) (bs : List Block) → Unique bs → Unique (filter p bs)
unfolding filter
Unique-filter p [] u = tt
Unique-filter p (b ∷ bs) u = elim (Bool-cases (p b)) [
  | inl e ↦ rw e (others bs u.0, Unique-filter p bs u.1)
  | inr e ↦ rw e (Unique-filter p bs u.1)
]
  where
    others :
        (cs : List Block)
        → All (λ (c : Block). b.number ≢ c.number) cs
        → All (λ (c : Block). b.number ≢ c.number) (filter p cs)
    others [] h = tt
    others (c ∷ cs) h = elim (Bool-cases (p c)) [
      | inl e ↦ rw e (h.0, others cs h.1)
      | inr e ↦ rw e (others cs h.1)
    ]

Unique-append :
    (b : Block) (bs : List Block)
    → Unique bs
    → any (same_number b) bs ≡ false
    → Unique (bs ++ (b ∷ []))
unfolding any
Unique-append b [] u h = (tt, tt)
Unique-append b (c ∷ bs) u h = (others bs u.0, Unique-append b bs u.1 (ground (arith, h)))
  where
    others :
        (cs : List Block)
        → All (λ (d : Block). c.number ≢ d.number) cs
        → All (λ (d : Block). c.number ≢ d.number) (cs ++ (b ∷ []))
    others [] k = (λ e. ground (arith, h, e), tt)
    others (d ∷ cs) k = (k.0, others cs k.1)

pub insert_blocks-Unique :
    (bs table after : List Block)
    → Unique table
    → insert_blocks bs table ≡ some after
    → Unique after
unfolding insert_blocks
insert_blocks-Unique [] table after u h = subst Unique (ground (arith, h)) u
insert_blocks-Unique (b ∷ bs) table after u h = elim (Bool-cases (any (same_number b) table)) [
  | inl e ↦ absurd (ground (arith, h, e))
  | inr e ↦
      insert_blocks-Unique bs (table ++ (b ∷ [])) after (Unique-append b table u e)
        (ground (arith, h, e))
]

-- The rows outside the interval are those of before.
abbrev pub SameOutside : Manifest → List Block → List Block → Type 0
SameOutside m before after =
    (n : ℕ) → between m.first m.last n ≡ false → block_at n after ≡ block_at n before

module _ (E : Export) (faults : Step → Bool) (m : Manifest) where
  abbrev inside : List Block → List Block
  inside = filter (λ b. between m.first m.last b.number)

  insert_blocks-SameOutside :
      (rows table after : List Block)
      → insert_blocks (inside rows) table ≡ some after
      → SameOutside m table after
  insert_blocks-SameOutside rows table after h n away =
      rw
        (
          insert_blocks-some (inside rows) table after h,
          block_at-append n table (inside rows),
          block_at-filter (between m.first m.last) n rows,
          away,
        )
        (ground arith)

  copy_blocks-Unique :
      (files : List Text) (table after : List Block)
      → Unique table
      → copy_blocks E faults m files table ≡ ok after
      → Unique after × SameOutside m table after
  unfolding copy_blocks
  copy_blocks-Unique [] table after u h =
      let same : table ≡ after = ground (arith, h) in
      (subst Unique same u, λ n away. ap (block_at n) (sym same))
  copy_blocks-Unique (file ∷ rest) table after u h = elim (Option-cases (E.block_rows_of file)) [
    | inl e ↦ absurd (ground (arith, h, e))
    | inr (rows, e) ↦ elim (Option-cases (insert_blocks (inside rows) table)) [
      | inl f ↦ absurd (ground (arith, h, e, f))
      | inr (more, f) ↦
          let tail =
            copy_blocks-Unique rest more after (insert_blocks-Unique (inside rows) table more u f)
              (ground (arith, h, e, f)) in
          (tail.0, λ n away. tail.1 n away ∙ insert_blocks-SameOutside rows table more f n away)
    ]
  ]

  pub blocks_body_ok :
      (files : List Text) (s s' : Site)
      → Unique s.database.blocks
      → blocks_body E faults m files s ≡ ok s'
      → Unique s'.database.blocks
        × SameOutside m s.database.blocks s'.database.blocks
        × (s'.database.cursor ≡ s.database.cursor)
        × (s'.database.maintenance ≡ s.database.maintenance)
  unfolding blocks_body
  blocks_body_ok files s s' u h =
      let before = filter (λ b. not (between m.first m.last b.number)) s.database.blocks in
      elim (Result-cases (copy_blocks E faults m files before)) [
        | inr (x, e) ↦ absurd (ground (arith, h, e))
        | inl (after, e) ↦
            let copied =
              copy_blocks-Unique files before after
                (Unique-filter (λ b. not (between m.first m.last b.number)) s.database.blocks u)
                e in
            let same : after ≡ s'.database.blocks = ground (arith, h, e) in
            (
              subst Unique same copied.0,
              λ n away.
                  ap (block_at n) (sym same)
                  ∙ (copied.1 n away
                      ∙ rw
                          (
                            block_at-filter (λ k. not (between m.first m.last k)) n
                                s.database.blocks,
                            away,
                          )
                          refl),
              ground (arith, h, e),
              ground (arith, h, e),
            )
      ]
