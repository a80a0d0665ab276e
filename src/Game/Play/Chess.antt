-- ===== src/Game/Play/Chess.antt =====
-- A game that starts in a sound position is a sequence of moves of men on the abstract board.
use c_chess_cli.Common.{ℕ, zero, suc, ◌<◌, ◌≡◌, ◌≢◌, refl, sym, ap, subst, ◌∙◌, arith, Bool, some}
use c_chess_cli.Common.Int.{ℤ}
use c_chess_cli.Str.{Bytes}
use c_chess_cli.Libc.{Libc}
use c_chess_cli.Options.{Options, EngineOptions}
use c_chess_cli.Engine.{Engine}
use c_chess_cli.Bitboard.Square.{king, opposite}
use c_chess_cli.Bitboard.Move.{move_from, move_to, move_prom}
use c_chess_cli.Position.State.{Position, pos_piece_on}
use c_chess_cli.Position.Board.{Board}
use c_chess_cli.Position.Board.Rules.{Plays}
use c_chess_cli.Position.Play.{pos_move, finish, play, end_turn}
use c_chess_cli.Gen.Plays.{MayGo, IsCalm}
use c_chess_cli.Gen.Plays.Generated.{legal-IsRuled}
use c_chess_cli.Gen.Sound.{IsSound, IsSound-IsPlayable, pos_move-IsSound}
use c_chess_cli.Game.Play.{Game, Table, Playing, next_position, game_play}
use c_chess_cli.Game.Play.Legal.{IsLegal, game_play-IsLegal}

-- The position `n` is sound and shows the board, and so do those before it. The last move started
-- on a man of the side that had the turn, who may go so, and `Plays` turns the board before into the
-- board after it.
abbrev pub IsChess : (ℕ → Position) → ℕ → Board → Type 0
IsChess f zero b = IsSound (f 0) b
IsChess f (suc n) b' =
    (b : Board) × IsChess f n b
    × IsSound (f (suc n)) b'
    × ((f (suc n)).turn ≡ opposite (f n).turn)
    × MayGo (f n) b (move_from (f (suc n)).last_move) (move_to (f (suc n)).last_move)
    × IsCalm b (f n).turn (move_from (f (suc n)).last_move) (move_to (f (suc n)).last_move)
    × Plays b (f n).turn (f n).ep_square (move_from (f (suc n)).last_move)
        (move_to (f (suc n)).last_move) (move_prom (f (suc n)).last_move) b'

-- None of the first `n` moves goes onto a king.
abbrev pub KeepsKings : (ℕ → Position) → ℕ → Type 0
KeepsKings f n = (k : ℕ) → k < n → pos_piece_on (f k) (move_to (f (suc k)).last_move) ≢ king

last : (f : ℕ → Position) (n : ℕ) (b : Board) → IsChess f n b → IsSound (f n) b
last f zero b h = h
last f (suc n) b h = h.2

pos_move_state :
    (p : Position) (m : ℕ)
    → ((pos_move p m).last_move ≡ m) × ((pos_move p m).turn ≡ opposite p.turn)
unfolding pos_move finish play end_turn
pos_move_state p m = (refl, refl)

-- The move that is none is not generated, so that each next position is that after
-- a move.
played : (p : Position) (m : ℕ) → move_from m ≢ move_to m → next_position p m ≡ pos_move p m
unfolding next_position
played p zero h = absurd (h (unfold move_from move_to in refl))
played p (suc m) h = ground arith

pub IsLegal-IsChess :
    (f : ℕ → Position) (n : ℕ) (b0 : Board)
    → IsSound (f 0) b0
    → IsLegal f n
    → KeepsKings f n
    → (b : Board) × IsChess f n b
IsLegal-IsChess f zero b0 v l k = (b0, v)
IsLegal-IsChess f (suc n) b0 v (l, (m, legal, next)) k =
    let (b, before) = IsLegal-IsChess f n b0 v l (λ i h. k i (omega arith)) in
    let sound = last f n b before in
    let apart = (legal-IsRuled (f n) b m (IsSound-IsPlayable sound) legal).0 in
    let is_move : f (suc n) ≡ pos_move (f n) m = next ∙ played (f n) m apart in
    let (same, turns) = pos_move_state (f n) m in
    let is_last : (f (suc n)).last_move ≡ m = ap (λ (q : Position). q.last_move) is_move ∙ same in
    let kept : pos_piece_on (f n) (move_to m) ≢ king =
      λ e. k n (omega arith) (ap (λ (x : ℕ). pos_piece_on (f n) (move_to x)) is_last ∙ e) in
    let (apart', goes, calm, (b', plays, next_sound)) =
      pos_move-IsSound (f n) b m sound legal kept in
    (
      b',
      (
        b,
        before,
        subst (λ (q : Position). IsSound q b') (sym is_move) next_sound,
        ap (λ (q : Position). q.turn) is_move ∙ turns,
        subst (λ (x : ℕ). MayGo (f n) b (move_from x) (move_to x)) (sym is_last) goes,
        subst (λ (x : ℕ). IsCalm b (f n).turn (move_from x) (move_to x)) (sym is_last) calm,
        subst
            (λ (x : ℕ).
              Plays b (f n).turn (f n).ep_square (move_from x) (move_to x) (move_prom x) b')
            (sym is_last) plays,
      ),
    )

-- Let a game start in a sound position, be played to its end, and let no move go onto a king.
-- Whatever the engines answer, its positions are sound and show one board after the other. The
-- sides take turns, and each move starts on a man of the side to move that may go so: a knight or
-- king by its step in ranks and files, a bishop, rook or queen to a square that the attack table of
-- src/bitboard.c has for the occupied squares, a pawn straight ahead to an empty square, over an
-- empty one from its second rank if it goes two, or askew onto an enemy's man or the en passant
-- square, a king onto an own rook to castle. Each board is
-- what `Plays` makes of the board before: the man stands on its new square, what it took is gone,
-- en passant too, a castling moves both, and a pawn on its last rank is promoted. Whether a king is
-- left in check is not part of this.
pub game_play-IsChess :
    (c : Libc) (msec : ℕ → ℤ) (garbage : Position → Bytes → ℕ) (engines : ℕ → Engine)
    (o : Options c.Double) (eo : ℕ → EngineOptions) (g : Game) (t : Table) (reverse : Bool)
    (result : ℕ) (p : Playing) (b0 : Board)
    → game_play c msec garbage engines o eo g t reverse ≡ some (result, p)
    → IsSound (g.vec_pos 0) b0
    → KeepsKings p.game.vec_pos p.game.ply
    → (p.game.vec_pos 0 ≡ g.vec_pos 0) × ((b : Board) × IsChess p.game.vec_pos p.game.ply b)
game_play-IsChess c msec garbage engines o eo g t reverse result p b0 h v k =
    let (first, legal, ended, why) =
      game_play-IsLegal c msec garbage engines o eo g t reverse result p h in
    (
      first,
      IsLegal-IsChess p.game.vec_pos p.game.ply b0
          (subst (λ (q : Position). IsSound q b0) (sym first) v) legal k,
    )
