-- ===== src/Tx/Headers.antt =====
-- The headers that src/tx.c makes are those that src/rx.c accepts.
use owl.Base.{ℕ, ◌≡◌, refl, arith, true, some, List, [], ◌∷◌, ◌++◌, length, length-append, subst}
use owl.Base.Int.{pos}
use owl.Rx.Frame.{parse_action_hdr}
use owl.Rx.Llc.{LlcHdr, llc_parse, valid_llc_header}
use owl.Tx.Frame.{ActionType, psf, mif, subtype_of, init_action, llc_init_awdl_hdr}
use owl.Tx.Parse.{
  whole, load_all-middle, read_bytes-load, read_u8-load, read_be16-load, read_bytes_copy-load,
}
use owl.Version.{version}
use owl.Wire.{Buf, load, load_all, read_u8, read_be16, read_bytes, read_bytes_copy}

pub parse_action_hdr-bytes :
    (b : Buf) (type : ActionType) (clock : ℕ)
    → read_bytes b (pos 0) 16 ≡ some (16, init_action type clock)
    → parse_action_hdr b ≡ some (subtype_of type)
unfolding parse_action_hdr init_action version
parse_action_hdr-bytes b psf clock e = rw (parse_action_hdr, e) refl
parse_action_hdr-bytes b mif clock e = rw (parse_action_hdr, e) refl

pub length-init_action : (type : ActionType) (clock : ℕ) → length (init_action type clock) ≡ 16
unfolding init_action
length-init_action type clock = refl

-- The header of an action frame of either type is accepted with that type, whatever the clock says
-- and whatever follows.
action_hdr-heard :
    (type : ActionType) (clock : ℕ) (rest : List ℕ)
    → parse_action_hdr (whole (init_action type clock ++ rest)) ≡ some (subtype_of type)
action_hdr-heard type clock rest =
    let hdr = init_action type clock in
    let b = whole (hdr ++ rest) in
    let long = length-append hdr rest in
    let sixteen = length-init_action type clock in
    let e = read_bytes-load b 0 hdr (load_all-middle b [] hdr rest 0 refl refl) (omega arith) in
    parse_action_hdr-bytes b type clock
      (subst (λ n. read_bytes b (pos 0) n ≡ some (n, hdr)) sixteen e)

pub llc_parse-bytes :
    (b : Buf) (llc : LlcHdr)
    → read_u8 b (pos 0) ≡ some (1, llc.dsap)
    → read_u8 b (pos 1) ≡ some (1, llc.ssap)
    → read_u8 b (pos 2) ≡ some (1, llc.control)
    → read_bytes_copy b (pos 3) 3 ≡ some (3, llc.oui)
    → read_be16 b (pos 6) ≡ some (2, llc.pid)
    → llc_parse b ≡ some llc
unfolding llc_parse
llc_parse-bytes b llc d s c o p = rw (d, s, c, o, p) refl

-- The LLC header of a data frame is accepted, whatever follows.
llc_hdr-heard : (rest : List ℕ) → valid_llc_header (whole (llc_init_awdl_hdr ++ rest)) ≡ true
unfolding valid_llc_header llc_init_awdl_hdr load load_all
llc_hdr-heard rest =
    let b = whole (llc_init_awdl_hdr ++ rest) in
    let llc : LlcHdr = record {
      dsap = 0xaa;
      ssap = 0xaa;
      control = 0x03;
      oui = 0x00 ∷ 0x17 ∷ 0xf2 ∷ [];
      pid = 0x0800;
    } in
    rw
      (
        valid_llc_header,
        llc_parse-bytes b llc (read_u8-load b 0 0xaa refl (omega arith))
            (read_u8-load b 1 0xaa refl (omega arith)) (read_u8-load b 2 0x03 refl (omega arith))
            (read_bytes_copy-load b 3 (0x00 ∷ 0x17 ∷ 0xf2 ∷ []) refl (omega arith))
            (read_be16-load b 6 0x0800 (omega arith) refl refl (omega arith)),
      )
      refl
