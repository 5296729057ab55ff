-- ===== src/Heap.antt =====
-- libcommon/heap.c: the allocator of the dictdplugin_judy and dictdplugin_dbi plugins.
pub mod Alloc
pub mod Blocks
