-- ===== src/Greeting.antt =====
-- The API group greeting.foen.ye (crd-getting-started/pkg/apis/greeting).
pub mod Heap
pub mod ObjectMeta
mod PlainMeta
pub mod Internal
pub mod V1
pub mod V2
