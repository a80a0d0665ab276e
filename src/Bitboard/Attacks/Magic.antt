-- ===== src/Bitboard/Attacks/Magic.antt =====
-- The magic multipliers of src/bitboard.c, by square.
use c_chess_cli.Common.{ℕ, List, [], ◌∷◌}

abbrev pub rook_magics : List ℕ
rook_magics =
    0x808000645080c000 ∷ 0x208020001480c000 ∷ 0x4180100160008048 ∷ 0x8180100018001680
    ∷ 0x4200082010040201 ∷ 0x8300220400010008 ∷ 0x3100120000890004 ∷ 0x4080004500012180
    ∷ 0x1548000a1804008 ∷ 0x4881004005208900 ∷ 0x480802000801008 ∷ 0x2e8808010008800
    ∷ 0x8cd804800240080 ∷ 0x8a058002008c0080 ∷ 0x514000c480a1001 ∷ 0x101000282004d00
    ∷ 0x2048848000204000 ∷ 0x3020088020804000 ∷ 0x4806020020841240 ∷ 0x6080420008102202
    ∷ 0x10050011000800 ∷ 0xac00808004000200 ∷ 0x10100020004 ∷ 0x1500020004004581 ∷ 0x4c00180052080
    ∷ 0x220028480254000 ∷ 0x2101200580100080 ∷ 0x407201200084200 ∷ 0x18004900100500
    ∷ 0x100200020008e410 ∷ 0x81020400100811 ∷ 0x12200024494 ∷ 0x8006c002808006a5 ∷ 0x4201000404000
    ∷ 0x5402202001180 ∷ 0x81001002100 ∷ 0x100801000500 ∷ 0x4000020080800400 ∷ 0x4005050214001008
    ∷ 0x810100118b000042 ∷ 0xd01020040820020 ∷ 0x140a010014000 ∷ 0x420001500210040
    ∷ 0x54210010030009 ∷ 0x4000408008080 ∷ 0x2000400090100 ∷ 0x840200010100 ∷ 0x233442820004
    ∷ 0x800a42002b008200 ∷ 0x240200040009080 ∷ 0x242001020408200 ∷ 0x4000801000480480
    ∷ 0x2288008044000880 ∷ 0xa800400020180 ∷ 0x30011002880c00 ∷ 0x41110880440200 ∷ 0x2001100442082
    ∷ 0x1a0104002208101 ∷ 0x80882014010200a ∷ 0x100100600409 ∷ 0x2011048204402 ∷ 0x12000168041002
    ∷ 0x80100008a000421 ∷ 0x240022044031182 ∷ []

abbrev pub bishop_magics : List ℕ
bishop_magics =
    0x88b030028800d040 ∷ 0x18242044c008010 ∷ 0x10008200440000 ∷ 0x4311040888800a00
    ∷ 0x1910400000410a ∷ 0x2444240440000000 ∷ 0xcd2080108090008 ∷ 0x2048242410041004
    ∷ 0x8884441064080180 ∷ 0x42131420a0240 ∷ 0x28882800408400 ∷ 0x204384040b820200
    ∷ 0x402040420800020 ∷ 0x20910282304 ∷ 0x96004b10082200 ∷ 0x4000a44218410802 ∷ 0x808034002081241
    ∷ 0x101805210e1408 ∷ 0x9020400208010220 ∷ 0x820050c010044 ∷ 0x24005480a00000 ∷ 0x200200900890
    ∷ 0x808040049c100808 ∷ 0x9020202200820802 ∷ 0x410282124200400 ∷ 0x90106008010110
    ∷ 0x8001100501004201 ∷ 0x104080004030c10 ∷ 0x80840040802008 ∷ 0x2008008102406000
    ∷ 0x2000888004040460 ∷ 0xd0421242410410 ∷ 0x8410100401280800 ∷ 0x801012000108428
    ∷ 0x402080300b04 ∷ 0xc20020080480080 ∷ 0x40100e0201502008 ∷ 0x4014208200448800
    ∷ 0x4050020607084501 ∷ 0x1002820180020288 ∷ 0x800610040540a0c0 ∷ 0x301009014081004
    ∷ 0x2200610040502800 ∷ 0x300442011002800 ∷ 0x1022009002208 ∷ 0x110011000202100
    ∷ 0x1464082204080240 ∷ 0x21310205800200 ∷ 0x814020210040109 ∷ 0xc102008208c200a0
    ∷ 0xc100702128080000 ∷ 0x1044205040000 ∷ 0x1041002020000 ∷ 0x4200040408021000 ∷ 0x4004040c494000
    ∷ 0x2010108900408080 ∷ 0x820801040284 ∷ 0x800004118111000 ∷ 0x203040201108800
    ∷ 0x2504040804208803 ∷ 0x228000908030400 ∷ 0x10402082020200 ∷ 0xa0402208010100
    ∷ 0x30c0214202044104 ∷ []
