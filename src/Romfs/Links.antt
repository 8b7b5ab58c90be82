-- ===== src/Romfs/Links.antt =====
-- Hard links of crates/lamfold-romfs/src/romfs.rs: `resolved_header` against the chains of links.
use mathlib.Core.Path.{subst₂}
use lamfold.Prelude.{
  ℕ, zero, suc, ◌+◌, true, false, ◌==◌, Bool-cases, inl, inr, ◌≡◌, ◌↔◌, sym, ap, ◌∙◌, arith,
}
use lamfold.Error.{ok, bind-eq-ok, ok-injective}
use lamfold.Source.{BlockSource}
use lamfold.Romfs.{Header, ft_hardlink, max_link_hops, read_header, follow_links, resolved_header}

-- From the header at `off` a chain of fewer than `turns` hard links ends at `node`, whose header `h`
-- is no hard link.
pub data LinksTo (src : BlockSource) : ℕ → ℕ → ℕ → Header → Type 0 where
  ends :
      {turns off : ℕ} {h : Header}
      → read_header src off ≡ ok h
      → (h.ftype == ft_hardlink) ≡ false
      → LinksTo src (suc turns) off off h
  hop :
      {turns off node : ℕ} {l h : Header}
      → read_header src off ≡ ok l
      → (l.ftype == ft_hardlink) ≡ true
      → LinksTo src turns l.info node h
      → LinksTo src (suc turns) off node h

module _ (src : BlockSource) where
  follow_ends :
      (turns off : ℕ) (h : Header)
      → read_header src off ≡ ok h
      → (h.ftype == ft_hardlink) ≡ false
      → follow_links src (suc turns) off ≡ ok (off, h)
  unfolding follow_links
  follow_ends turns off h r n = ground arith

  follow_hop :
      (turns off : ℕ) (h : Header)
      → read_header src off ≡ ok h
      → (h.ftype == ft_hardlink) ≡ true
      → follow_links src (suc turns) off ≡ follow_links src turns h.info
  unfolding follow_links
  follow_hop turns off h r n = ground arith

  LinksTo-follow_links :
      {turns off node : ℕ} {h : Header}
      → LinksTo src turns off node h
      → follow_links src turns off ≡ ok (node, h)
  LinksTo-follow_links (ends {turns} {off} {h} r n) = follow_ends turns off h r n
  LinksTo-follow_links (hop {turns} {off} {l = k} r n l) =
      follow_hop turns off k r n ∙ LinksTo-follow_links l

  follow_links-LinksTo :
      (turns off node : ℕ) (h : Header)
      → follow_links src turns off ≡ ok (node, h)
      → LinksTo src turns off node h
  unfolding follow_links
  follow_links-LinksTo zero off node h e = absurd (cc)
  follow_links-LinksTo (suc turns) off node h e =
      let (l, r, next) = bind-eq-ok (read_header src off) _ e in
      elim (Bool-cases (l.ftype == ft_hardlink)) [
        | inl link ↦
            hop r link
              (follow_links-LinksTo turns l.info node h (sym (follow_hop turns off l r link) ∙ e))
        | inr plain ↦
            let same = ok-injective (sym (follow_ends turns off l r plain) ∙ e) in
            subst₂ (LinksTo src (suc turns) off) (ap (λ t. t.0) same) (ap (λ t. t.1) same)
              (ends r plain)
      ]

  -- A header is resolved exactly to the end of its chain of links, if the chain has at most
  -- `MAX_LINK_HOPS` links; a longer chain, a cycle among them, resolves to nothing.
  pub resolved_header_iff :
      (off node : ℕ) (h : Header)
      → (resolved_header src off ≡ ok (node, h)) ↔ LinksTo src (max_link_hops + 1) off node h
  unfolding resolved_header
  resolved_header_iff off node h =
      (follow_links-LinksTo (max_link_hops + 1) off node h, LinksTo-follow_links)

  LinksTo-self :
      {turns off node : ℕ} {h : Header}
      → LinksTo src turns off node h
      → (k : ℕ) → LinksTo src (suc k) node node h
  LinksTo-self (ends r n) k = ends r n
  LinksTo-self (hop r n l) k = LinksTo-self l k

  LinksTo-plain :
      {turns off node : ℕ} {h : Header}
      → LinksTo src turns off node h
      → (h.ftype == ft_hardlink) ≡ false
  LinksTo-plain (ends r n) = n
  LinksTo-plain (hop r n l) = LinksTo-plain l

  -- What a header resolves to resolves to itself, and is no hard link.
  pub resolved_header_idem :
      (off node : ℕ) (h : Header)
      → resolved_header src off ≡ ok (node, h)
      → (resolved_header src node ≡ ok (node, h)) × ((h.ftype == ft_hardlink) ≡ false)
  resolved_header_idem off node h e =
      let l = (resolved_header_iff off node h).0 e in
      ((resolved_header_iff node node h).1 (LinksTo-self l max_link_hops), LinksTo-plain l)
