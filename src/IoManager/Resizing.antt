-- ===== src/IoManager/Resizing.antt =====
-- The table of contexts that IOManager::addEvent enlarges (synergy/iomanager.cc).
use synergy_lib.Prelude.{
  ◌-◌, ◌⊎◌, Bool-cases, ℕ, arith, inl, inr, ◌∙◌, sym, List, length, ◌≡◌, if◌then◌else◌, ltb, ◌≤◌,
  ◌*◌, ◌<◌, ◌/◌, Option-cases, get_elem?, ◌^◌, ap, ◌%◌,
}
use synergy_lib.Prelude.Total.{total, total-ext, total-more}
use synergy_lib.Prelude.Table.{get_elem?-ge}
use synergy_lib.IoManager.{FdContext, Epoll, IoManager, FdOps}
use synergy_lib.IoManager.Ops.{find_table, reaches, enlarge_table}
use synergy_lib.IoManager.Invariant.{Inv, waiting, size, events_at, entry}

old_or_new : (i n : ℕ) → (i < n) ⊎ (n ≤ i)
old_or_new i n = elim (Bool-cases (ltb i n)) [
  | inl h ↦ inl (ground (arith, h))
  | inr h ↦ inr (ground (arith, h))
]

events_at-ge : (cs : List FdContext) (i : ℕ) → length cs ≤ i → size (events_at cs i) ≡ 0
events_at-ge cs i h = ground (arith, get_elem?-ge cs i h)

-- A table that is only longer waits for as many events.
waiting_more :
    (cs ds : List FdContext)
    → length cs ≤ length ds
    → ((i : ℕ) → events_at ds i ≡ events_at cs i)
    → waiting ds ≡ waiting cs
waiting_more cs ds h same =
    total-ext size (length ds) (events_at ds) (events_at cs) (λ i _. ap size (same i))
    ∙ ap (λ n. total size n (events_at cs)) (omega (arith, h))
    ∙ total-more size (length cs) (length ds - length cs) (events_at cs) (events_at-ge cs)

-- The conversion to int changes nothing of a size below 2^31.
reaches-ltb :
    (fd : ℕ) (cs : List FdContext) → length cs < 2 ^ 31 → reaches fd cs ≡ ltb fd (length cs)
reaches-ltb fd cs small =
    let e : length cs % 2 ^ 32 ≡ length cs = omega (arith, small) in ground (arith, e, small)

module _ (e : Epoll) (f : FdOps) where
  pub length-find_table :
      (fd : ℕ) (cs : List FdContext)
      → length cs < 2 ^ 31
      → length (find_table e f fd cs) ≡ (if ltb fd (length cs) then length cs else fd * 3 / 2)
  unfolding find_table enlarge_table
  length-find_table fd cs small =
      ground (arith, f.resize-length (fd * 3 / 2) cs, small, reaches-ltb fd cs small)

  module _ (tickle_fd fd : ℕ) (m : IoManager e.Kernel) (v : Inv e tickle_fd m)
      (range : fd < 2 ^ 30) where
    abbrev bigger : List FdContext
    bigger = f.context_resize (fd * 3 / 2) m.contexts

    module _ (grows : length m.contexts ≤ fd * 3 / 2) where
      events_at-bigger : (i : ℕ) → events_at bigger i ≡ events_at m.contexts i
      events_at-bigger i = elim (old_or_new i (length m.contexts)) [
        | inl old ↦ ground (arith, f.resize-old (fd * 3 / 2) i m.contexts old grows)
        | inr new ↦ elim (Option-cases (get_elem? bigger i)) [
          | inl n ↦ ground (arith, n, get_elem?-ge m.contexts i new)
          | inr (c, h) ↦ ground (
            arith,
            h,
            get_elem?-ge m.contexts i new,
            f.resize-new (fd * 3 / 2) i m.contexts c new grows h,
          )
        ]
      ]

      bigger-Inv : Inv e tickle_fd (record m { contexts = bigger })
      bigger-Inv = record {
        own = λ i c h. elim (old_or_new i (length m.contexts)) [
          | inl old ↦ v.own i c (sym (f.resize-old (fd * 3 / 2) i m.contexts old grows) ∙ h)
          | inr new ↦ (f.resize-new (fd * 3 / 2) i m.contexts c new grows h).0
        ];
        watched = λ i ne. v.watched i ne ∙ ap entry (sym (events_at-bigger i));
        counted =
            v.counted
            ∙ sym (
                waiting_more m.contexts bigger
                  (omega (arith, f.resize-length (fd * 3 / 2) m.contexts grows, grows))
                  events_at-bigger);
        small = omega (arith, f.resize-length (fd * 3 / 2) m.contexts grows, range);
      }

    -- A resize that does not make the table smaller.
    pub enlarge-Inv :
        length m.contexts ≤ fd * 3 / 2
        → Inv e tickle_fd (record m { contexts = enlarge_table e f fd m.contexts })
    unfolding enlarge_table
    enlarge-Inv grows = bigger-Inv grows

    pub found-Inv : Inv e tickle_fd (record m { contexts = find_table e f fd m.contexts })
    unfolding find_table enlarge_table
    found-Inv = elim (Bool-cases (ltb fd (length m.contexts))) [
      | inl h ↦ rw (reaches-ltb fd m.contexts v.small, h) v
      | inr h ↦ rw (reaches-ltb fd m.contexts v.small, h) (bigger-Inv (ground (arith, h)))
    ]
