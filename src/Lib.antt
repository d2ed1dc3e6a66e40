-- ===== src/Lib.antt =====
-- A model of parts of ltio, a C++ library for network services: its boolean indexer,
-- components/boolean_indexer, which finds the documents whose boolean expressions a query
-- satisfies; its inverted indexer, components/inverted_indexer, which does so with bitmaps; the
-- cache and the two sketches beside it, components/lru_cache, components/bloomfilter and
-- components/count_min_sketch; its queue of timers, base/message_loop; and of net_io the buffer,
-- the line and the raw codec, a client and its channels, and the consistent hash map.
--
-- How the parts interact. A Document holds Conjunctions, each a map from a field to one
-- BooleanExpr. BeIndexerBuilder::AddDocument parses the values of each expression to numbers and
-- appends the entry identifier of its conjunction to posting lists of a container of the
-- BooleanIndexer; BuildIndexer sorts the lists. IndexScanner::Retrieve opens a FieldCursor for
-- each field of a query, over one EntriesCursor for each of its values, and moves the field
-- cursors forward together until too few of them are left.
--
-- Indexer::AddDocument keeps, for each registered field, the ids of the documents that include or
-- exclude a value or take any. BuildIndexer has the PostingListManager turn each set of ids into a
-- bitmap by the position of the ids in order. UnifyQuery has a BitMapMerger start from all
-- documents and intersect with the group of each field, which is the union of the bitmaps that the
-- query's values include and of the field's wildcard, without those that they exclude; it finds
-- and prints the ids of each bitmap on the way.
--
-- The loop of a thread, which is not modelled, calls TimerTaskQueue::HandleExpiredTimer, which
-- runs the tasks that are due and says how long to wait for the next one. A task may add and
-- cancel events while the queue runs.
--
-- A TcpChannel, which is not modelled, reads from a socket into an IOBuffer and calls
-- LineCodecService::OnDataReceived, which takes a line out of the buffer; SendMessage puts a line
-- on the channel. RawCodecService takes frames out of the buffer instead, as many as are whole,
-- and answers heartbeats on the server's side. On the client's side a ClientChannel sends requests
-- by its codec and gets back the codec's messages, timeouts and closing: AsyncChannel finds the
-- request of a response by its id, QueuedChannel has one request on its way and lets the others
-- wait; both tell the delegate, a Client, of answers and failures. The Client keeps the list of
-- its channels, dials again when one is closed, and takes a ready one for each request.
--
-- Which file models what. Files are under components/boolean_indexer unless a path is given, and
-- each file of proofs stands below the file that it is about.
--
--   Common.antt                    numbers, lists, bits, strings, std::map and std::sort
--   BooleanIndexer/Ids.antt        id_generator.{h,cc}: ConjUtil, EntryUtil
--   BooleanIndexer/Cursor.antt     scanner_cursor.{h,cc}: EntriesCursor
--   BooleanIndexer/Field.antt      scanner_cursor.{h,cc}: FieldCursor
--   BooleanIndexer/Document.antt   document.{h,cc}: AttrValues, BooleanExpr, Conjunction, Document
--   BooleanIndexer/Parser.antt     parser/parser.h, parser/number_parser.{h,cc}: Token, ExprParser,
--                                  and base/utils/string/str_utils.cc: StrUtil::ToInt64
--   BooleanIndexer/Container.antt  posting_list.h, common_container.{h,cc}: CommonContainer
--   BooleanIndexer/Builder.antt    be_indexer.{h,cc}, builder/be_indexer_builder.{h,cc}
--   BooleanIndexer/Scanner.antt    index_scanner.{h,cc}: init_cursors, Retrieve
--   BooleanIndexer/Tests.antt      runs on small inputs
--   Net/Buffer.antt                net_io/io_buffer.{h,cc}: IOBuffer
--   Net/Line.antt                  net_io/codec/line/line_codec_service.cc: LineCodecService
--   Net/Tests.antt                 runs on a few bytes
--   Net/RawCodec.antt              net_io/codec/raw: RawMessage, RawCodecService
--   Net/ClientChannel.antt         net_io/clients/client_channel.{h,cc}, net_io/codec/codec_message.h
--   Net/ClientChannel/Async.antt   net_io/clients/async_channel.{h,cc}; Answers, Accounts, Runs,
--                                  Late and Again are about it
--   Net/ClientChannel/Queued.antt  net_io/clients/queued_channel.{h,cc}; Order and Dangling are about
--                                  it
--   Net/ConsistentHashMap.antt     net_io/base/load_balance/consistent_hash_map.h: ConsistentHashMap
--   InvertedIndexer/Bitmap.antt    components/inverted_indexer/posting_field/bitmap_posting_list.{h,cc}
--   InvertedIndexer/Manager.antt   components/inverted_indexer/posting_field/posting_list_manager.{h,cc}
--   InvertedIndexer/Merger.antt    components/inverted_indexer/bitmap_merger.{h,cc}: BitMapMerger
--   InvertedIndexer/Query.antt     components/inverted_indexer/indexer.{h,cc}: Indexer, with posting_field/
--                                  field.{h,cc}, posting_field/general_str_field.{h,cc}, expression.h
--   TimerTaskQueue.antt            base/message_loop/timer_task_queue.{h,cc}, timer_event.{h,cc}
--   Net/Client.antt                net_io/clients/client.{h,cc}: the channels of a Client
--   LruCache.antt                  components/lru_cache/lru_cache.h: LRUCache
--   BloomFilter.antt               components/bloomfilter/bloom_filter.{h,cc}: BloomFilter
--   CountMinSketch.antt            components/count_min_sketch/count_min_sketch.{h,cc}: CountMinSketch
--
-- State and operations. A class is a record, a method is a function of the same name in lower case
-- that takes the record and returns the new one. What a method reaches by a pointer is written
-- back into the record that owns it, and into each entry of AsyncChannel's map that shares it. A
-- read through a null pointer or a reference to a node that is gone, a read outside a vector and a
-- failed assertion are `none`, so a theorem that a method returns `some` also says that it does
-- none of these.
--
-- Bounds and fuel. A uint64_t and the bit pattern of an int64_t are numbers below 2 ^ 64, and
-- shifts and increments keep the low 64 bits. The int positions of a cursor do not overflow as
-- long as a list has fewer than 2 ^ 30 entries, and the int counts of a container as long as it
-- has fewer than 2 ^ 31. The binary search runs on fuel of one more than the length of the list,
-- and the scan on any fuel above the number of entries that are left under its cursors; the
-- theorems show that both are enough. The positions of an IOBuffer are uint64_t; its invariant
-- keeps their differences from wrapping. The loop of the raw codec runs on fuel of one more than
-- the bytes to read; each round but the last takes a header of 24 bytes. The frame's size wraps at
-- 2 ^ 64. The loop of HandleExpiredTimer runs on any fuel above the number of entries in the heap.
-- The ids of timers, uint32_t, do not wrap as long as there are fewer than 2 ^ 32 at a time.
--
-- Taken from outside. std::hash<std::string> is the parameter `hasher`, of which nothing is
-- supposed. The channel that a codec sends to is a parameter, the function Send on its state. The
-- header of a raw message lies in memory as on a little-endian host, with 6 bytes of padding, a
-- parameter. The codec of a client channel is a parameter, and its timers, responses and closing
-- are events of a run, in any order; what is supposed of the ids is stated with the run.
-- MurmurHash3_x64_128 is the parameter `murmur`, of which nothing is supposed, the hash of a node
-- is `hasher` again, the equality of the keys of a cache is the parameter `eq`, which is to hold
-- exactly of equal keys, and the sizes of the sketches, which their constructors compute in
-- floating point, are fields. std::sort is an insertion sort that keeps the order of equal keys.
-- std::unordered_map is a list in the order of first use, or, in the inverted indexer, of its
-- keys. std::stoll is written out with its two exceptions.
--
-- The connections that a Connector has in process and which channels are ready are arguments of
-- the operations of a Client; coming up, failing and closing are events of a run, in any order.
--
-- The readings of the clock of the timer queue, at each time that an entry is looked at and after
-- its task has run, and the calls that a task makes on the queue are parameters; what is supposed
-- of them is stated with each theorem.
--
-- The checksum crc64 of a list of ids is a parameter, of which nothing is supposed. The int64_t
-- ids of the inverted indexer are held 2 ^ 63 higher, so that they are in the order of numbers. A
-- bitmap does not change once it is built, so a pointer to one is the bitmap itself. What is
-- printed is left out, but not the CHECKs on the way to it.
--
-- Not modelled: the requests of a Client and its interceptors; the fields of the inverted indexer
-- that have a creator, RangeField among them, and its JSON; printing and dumping, the log, the
-- options of the scan (which nothing reads), and the copy assignment of Document. The rest of the
-- library is not modelled: sockets, event loops, coroutines, the other codecs and servers work on
-- operating system objects and callbacks, and the copies of other projects' libraries are left
-- aside.
pub mod BloomFilter
pub mod BooleanIndexer
pub mod Common
pub mod CountMinSketch
pub mod InvertedIndexer
pub mod LruCache
pub mod Net
pub mod TimerTaskQueue
