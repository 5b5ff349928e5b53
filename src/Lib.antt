-- ===== src/Lib.antt =====
-- lcompat gives Linux drivers the kernel interfaces that they expect, on top of another kernel. This
-- library models the parts that keep state of their own and proves what they promise.
--
-- PagePool models page_pool.c and include/linux/mm.h: reference-counted pages on the global list
--   `lcompat_pages`, `get_order`, `__dev_alloc_pages`, `virt_to_head_page` and the page pool. A page is a
--   record at an address; the list of live pages is a List. `kzalloc` and `alloc_frames_bytes` are not code
--   of the repository: their results are the argument `Grant`, and `IsUnused` states what they promise.
-- Skb models include/linux/skbuff.h. Skb.Linear has the linear part, Skb.Paged the fragments and
--   `kfree_skb`, Skb.Alloc what gets new memory, Skb.Queue the queues of buffers. Buffers get their memory
--   from PagePool, and hold references to its pages. Memory is a function from addresses to bytes.
-- Chain has the singly linked queues with head and tail that skbuff.h and workqueue.c share.
-- Workqueue models one workqueue of workqueue.c: `lcompat_queue_work`, `lcompat_workqueue_worker` and
--   `lcompat_cancel_work_sync`, cut into the sections that run without interruption. An Event is one
--   section of one thread, and a run is any sequence of events.
-- Usb models usb.c and include/linux/usb.h. Usb.Sg has the scatter lists, Usb.Urb a URB on its way through
--   a transfer, Usb.Bus the sections of `usb_submit_urb` and `lcompat_usb_urb_complete` on one endpoint of a
--   wrapper with the queue of Chain, and Usb.Events what drivers, threads and the host do there in any
--   order. Usb.Descriptors walks over descriptors, Usb.Wrappers finds the pipe of a transfer, Usb.Drivers
--   registers, probes and removes, Usb.Messages has the transfers that wait. The host's event codes, its
--   descriptor sizes and what it answers are arguments (Codes, Layout, Answers, XferHost). What
--   `lcompat_usb_get_native_pipe` finds for a submission is an argument of the event. A length of a scatter
--   entry and the length that the host reports fit an `int`.
-- Pci models the matching of identifiers and the table of wrappers of pci.c and include/linux/pci.h, and
--   Pci.Drivers the drivers with their bindings; the host's devices and its answers are arguments.
-- Idr and Xarray model include/linux/idr.h and include/linux/xarray.h.
-- Mac models the station in mac80211.c and the frame predicates of include/net/mac80211.h. A frame is the
--   list of a buffer's bytes, an address a list of 6. Mac.Runtime has the state of one device,
--   `lcompat_ieee80211_runtime_t`; Mac.Elements, Mac.Select and Mac.Rates read scan results;
--   Mac.Transmit and Mac.Probe build management frames; Mac.Connect and Mac.Station move the connection;
--   Mac.Data and Mac.Amsdu convert data frames; Mac.Receive is `ieee80211_rx_irqsafe`, and its Event
--   and run are requests, scans and frames in any order. Mac.Beacon is what a beacon adds to the scan
--   results, Mac.Scan has the scans, and Mac.Register the registration, where Held is what is held at
--   each of its error labels. What the host and the driver return is an argument (Host, ScanHost,
--   Answers); ScanResult and ConnectParams are the fields used of the host's structs.
-- Base has the shared names, words of 32 and 64 bits with their wrap-around, and memory blocks.
-- Samples and Tests run the theorems on small states.
--
-- A pointer to a struct that may be NULL is an Option, or an address with 0 for NULL. Counters of 32 and
-- 64 bits wrap as written in Base.Words. An outer `none` is a fault, such as the use of a page that is
-- not live, or a loop that ran out of fuel. The fuel of `get_order` and of the doubling in
-- `xa_ensure_capacity` is 64, one for every bit; that of the walk over a queue is an argument, and one more
-- than the number of buffers is enough; that of the search of `xa_alloc` is one more than the capacity.
-- The walks over elements, over descriptors and over an A-MSDU have fuel for one round more than there are
-- bytes, and each round takes two bytes at least.
-- Memory blocks that `memcpy` copies do not overlap.
--
-- Not modelled: locks (each function is one step; in Workqueue each locked section is one), delayed
-- work and the start and waking of workers, `page_pool_create` and the statistics, checksum helpers,
-- the searches over PCI devices, the glue to the host's PCI configuration space, threads, files
-- and memory (kthread.c, debugfs.c, memory.c). Of usb.c: names, the device speed, and a driver's writes to a
-- URB other than `usb_fill_bulk_urb`. Of mac80211.c: the status of sent frames, the
-- iteration over interfaces and stations, and the information for the user.
pub mod Base
pub mod PagePool
pub mod Chain
pub mod Skb
pub mod Idr
pub mod Xarray
pub mod Usb
pub mod Workqueue
pub mod Pci
pub mod Mac
mod Samples
mod Tests
