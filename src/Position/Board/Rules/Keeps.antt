-- ===== src/Position/Board/Rules/Keeps.antt =====
-- Which men a move leaves, and where those of the new board come from.
use c_chess_cli.Common.{ℕ, ◌≡◌, ◌≢◌, ◌⊎◌, inl, inr, arith, ◌==◌, none, Bool-cases}
use c_chess_cli.Bitboard.Square.{king, pawn, opposite, rank_of, square_from}
use c_chess_cli.Position.Board.{man, Board}
use c_chess_cli.Position.Board.Rules.{
  Plays, officer, king_step, castling, pawn_step, en_passant, promotion, castled_king,
}

module _ {b b' : Board} {us ep from to prom : ℕ} where
  -- A man that is no pawn stays, if it does not move and is not moved onto.
  pub Plays-stays :
      Plays b us ep from to prom b'
      → (s c k : ℕ) → b s ≡ man c k
      → k ≢ pawn
      → s ≢ from
      → s ≢ to
      → b' s ≡ man c k
  Plays-stays (officer piece hp e free eb) s c k h np nf nt = rw eb (ground arith)
  Plays-stays (king_step e free eb) s c k h np nf nt = rw eb (ground arith)
  Plays-stays (castling e e' ek er hk hr eb) s c k h np nf nt = rw eb (ground arith)
  Plays-stays (pawn_step e free ne n7 n0 eb) s c k h np nf nt = rw eb (ground arith)
  Plays-stays (en_passant e empty is_ep held eb) s c k h np nf nt = rw eb (ground arith)
  Plays-stays (promotion e free ne last hp eb) s c k h np nf nt = rw eb (ground arith)

  -- Where a king lands that moves.
  abbrev pub landing : Plays b us ep from to prom b' → ℕ
  landing (officer piece hp e free eb) = to
  landing (king_step e free eb) = to
  landing (castling e e' ek er hk hr eb) = castled_king from to
  landing (pawn_step e free ne n7 n0 eb) = to
  landing (en_passant e empty is_ep held eb) = to
  landing (promotion e free ne last hp eb) = to

  -- A king of the new board was there, or has moved.
  pub Plays-king :
      (plays : Plays b us ep from to prom b') (s c : ℕ)
      → b' s ≡ man c king
      → ((b s ≡ man c king) × (s ≢ from) × (s ≢ to))
        ⊎ ((c ≡ us) × (b from ≡ man us king) × (s ≡ landing plays))
  Plays-king (officer piece hp e free eb) s c h = inl (ground arith)
  Plays-king (king_step e free eb) s c h = elim (Bool-cases (s == to)) [
    | inl t ↦ inr (ground arith)
    | inr t ↦ inl (ground arith)
  ]
  Plays-king (castling e e' ek er hk hr eb) s c h = elim (Bool-cases (s == castled_king from to)) [
    | inl t ↦ inr (ground arith)
    | inr t ↦ inl (ground arith)
  ]
  Plays-king (pawn_step e free ne n7 n0 eb) s c h = inl (ground arith)
  Plays-king (en_passant e empty is_ep held eb) s c h = inl (ground arith)
  Plays-king (promotion e free ne last hp eb) s c h = inl (ground arith)

  -- A pawn of the new board was there, or has moved, and not onto the first or last rank.
  pub Plays-pawn :
      Plays b us ep from to prom b'
      → (s c : ℕ) → b' s ≡ man c pawn
      → (b s ≡ man c pawn) ⊎ (((rank_of s ≢ 7) × (rank_of s ≢ 0)) ⊎ (s ≡ ep))
  Plays-pawn (officer piece hp e free eb) s c h = inl (ground arith)
  Plays-pawn (king_step e free eb) s c h = inl (ground arith)
  Plays-pawn (castling e e' ek er hk hr eb) s c h = inl (ground arith)
  Plays-pawn (pawn_step e free ne n7 n0 eb) s c h = elim (Bool-cases (s == to)) [
    | inl t ↦ inr (inl (ground arith))
    | inr t ↦ inl (ground arith)
  ]
  Plays-pawn (en_passant e empty is_ep held eb) s c h = elim (Bool-cases (s == to)) [
    | inl t ↦ inr (inr (ground arith))
    | inr t ↦ inl (ground arith)
  ]
  Plays-pawn (promotion e free ne last hp eb) s c h = inl (ground arith)

  -- The side's own man moves, and not onto its own king.
  pub Plays-own : Plays b us ep from to prom b' → (k : ℕ) × (b from ≡ man us k)
  Plays-own (officer piece hp e free eb) = (piece, e)
  Plays-own (king_step e free eb) = (king, e)
  Plays-own (castling e e' ek er hk hr eb) = (king, e)
  Plays-own (pawn_step e free ne n7 n0 eb) = (pawn, e)
  Plays-own (en_passant e empty is_ep held eb) = (pawn, e)
  Plays-own (promotion e free ne last hp eb) = (pawn, e)

  pub Plays-ne-king : Plays b us ep from to prom b' → opposite us ≢ us → b to ≢ man us king
  Plays-ne-king (officer piece hp e free eb) ne h = ground arith
  Plays-ne-king (king_step e free eb) ne h = ground arith
  Plays-ne-king (castling e e' ek er hk hr eb) ne h = ground arith
  Plays-ne-king (pawn_step e free n n7 n0 eb) ne h = ground arith
  Plays-ne-king (en_passant e empty is_ep held eb) ne h = ground arith
  Plays-ne-king (promotion e free n last hp eb) ne h = ground arith

  -- A king that moves is where it lands.
  pub Plays-landing :
      (plays : Plays b us ep from to prom b')
      → b from ≡ man us king
      → b' (landing plays) ≡ man us king
  unfolding square_from
  Plays-landing (officer piece hp e free eb) h = absurd (ground arith)
  Plays-landing (king_step e free eb) h = rw eb (ground arith)
  Plays-landing (castling e e' ek er hk hr eb) h = rw eb (ground arith)
  Plays-landing (pawn_step e free ne n7 n0 eb) h = absurd (ground arith)
  Plays-landing (en_passant e empty is_ep held eb) h = absurd (ground arith)
  Plays-landing (promotion e free ne last hp eb) h = absurd (ground arith)

  -- A pawn that does not promote stands on its square; a square that was empty still is, unless
  -- something moved there.
  pub Plays-pushed :
      Plays b us ep from to prom b'
      → b from ≡ man us pawn
      → rank_of to ≢ 7
      → rank_of to ≢ 0
      → (b' to ≡ man us pawn) × ((s : ℕ) → b s ≡ none → s ≢ to → b' s ≡ none)
  Plays-pushed (officer piece hp e free eb) h n7 n0 = absurd (ground arith)
  Plays-pushed (king_step e free eb) h n7 n0 = absurd (ground arith)
  Plays-pushed (castling e e' ek er hk hr eb) h n7 n0 = absurd (ground arith)
  Plays-pushed (pawn_step e free ne m7 m0 eb) h n7 n0 = rw eb (ground arith, λ s z nt. ground arith)
  Plays-pushed (en_passant e empty is_ep held eb) h n7 n0 =
      rw eb (ground arith, λ s z nt. ground arith)
  Plays-pushed (promotion e free ne last hp eb) h n7 n0 = absurd (ground arith)
