-- ===== src/Eventset/Examples.antt =====
-- A hash function with the nine signatures' real values, tests of `Keep`, and instances.
use text.Mathlib.Text.{◌==◌ as str_eq}
use ff_eth_logs.Base.{
  ℕ, ◌≡◌, refl, ◌↔◌, String, true, false, List, [], ◌∷◌, arith, Distinct, if◌then◌else◌,
}
use ff_eth_logs.Eventset.{Hash, crypto_punks_address, topics, keep, transfer, uri, punk_bought}
use ff_eth_logs.Eventset.{is_warehouse_signature}
use ff_eth_logs.Base.{elem}
use ff_eth_logs.Eventset.Keep.{is_warehouse_signature-elem, Stored, keep-Stored}

unfoldable pub real_keccak256 : String → Hash
real_keccak256 s =
    if str_eq s "Transfer(address,address,uint256)"
    then 0xddf252ad1be2c89b69c2b068fc378daa952ba7f163c4a11628f55a4df523b3ef
    else if str_eq s "TransferSingle(address,address,address,uint256,uint256)"
    then 0xc3d58168c5ae7397731d063d5bbf3d657854427343f4c083240f7aacaa2d0f62
    else if str_eq s "TransferBatch(address,address,address,uint256[],uint256[])"
    then 0x4a39dc06d4c0dbc64b70af90fd698a233a518aa5d07e595d983b8c0526c8f7fb
    else if str_eq s "MetadataUpdate(uint256)"
    then 0xf8e1a15aba9398e019f0b49df1a4fde98ee17ae345cb5f6b5e2c27f5033e8ce7
    else if str_eq s "BatchMetadataUpdate(uint256,uint256)"
    then 0x6bd5c950a8d8df17f772f5af37cb3655737899cbf903264b9795592da439661c
    else if str_eq s "URI(string,uint256)"
    then 0x6bb7ff708619ba0610cba295a58592e0451dee2622938c8755667688daf3529b
    else if str_eq s "PunkTransfer(address,address,uint256)"
    then 0x05af636b70da6819000c49f85b21fa82081c632069bb626f30932034099107d8
    else if str_eq s "Assign(address,uint256)"
    then 0x8a0e37b73a0d9c82e205d4d1a3ff3d0b57ce5f4d7bccf6bac03336dc101cb7ba
    else if str_eq s "PunkBought(uint256,uint256,address,address)"
    then 0x58e5d5a525e3b40bc15abaa38b5882678db1ee68befd2f60bafe3a7fd06db9e3
    else 0

pub topics-Distinct : Distinct (topics real_keccak256)
unfolding topics real_keccak256
topics-Distinct = omega arith

-- The rows of TestKeep.
abbrev other : ℕ
other = 1

abbrev Kept : List Hash → ℕ → Type 0
Kept ts a = keep real_keccak256 ts a ≡ true

abbrev Dropped : List Hash → ℕ → Type 0
Dropped ts a = keep real_keccak256 ts a ≡ false

keep_table :
    Kept (transfer real_keccak256 ∷ 1 ∷ 2 ∷ 3 ∷ []) other
    × Dropped (transfer real_keccak256 ∷ 1 ∷ 2 ∷ []) other
    × Kept (transfer real_keccak256 ∷ 1 ∷ 2 ∷ []) crypto_punks_address
    × Dropped (uri real_keccak256 ∷ []) other
    × Kept (punk_bought real_keccak256 ∷ []) crypto_punks_address
    × Dropped (punk_bought real_keccak256 ∷ []) other
    × Dropped (0xabc ∷ []) other
    × Dropped [] other
unfolding keep real_keccak256
keep_table = (refl, refl, refl, refl, refl, refl, refl, refl)

keep-Stored_example :
    (keep real_keccak256 (transfer real_keccak256 ∷ 1 ∷ 2 ∷ []) crypto_punks_address ≡ true)
    ↔ Stored real_keccak256 (transfer real_keccak256 ∷ 1 ∷ 2 ∷ []) crypto_punks_address
keep-Stored_example =
    keep-Stored real_keccak256 topics-Distinct (transfer real_keccak256 ∷ 1 ∷ 2 ∷ [])
      crypto_punks_address

is_warehouse_signature-elem_example :
    is_warehouse_signature real_keccak256 (punk_bought real_keccak256)
    ≡ elem (punk_bought real_keccak256) (topics real_keccak256)
is_warehouse_signature-elem_example =
    is_warehouse_signature-elem real_keccak256 (punk_bought real_keccak256)
